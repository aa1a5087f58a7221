-- ===== src/Lib.antt =====
-- Trove keeps uploaded files and small sites and serves them back, with comment threads on what it
-- keeps, personal access tokens and a history for each user. This library models the program's own
-- logic and proves what makes it correct.
--
-- The program's parts, and the files that model them:
--
-- auth/auth.go decides on whose behalf a request acts. Auth has its types and Auth/Resolver
-- NewResolver, Resolve and verify; the verifiers are parameters that may read and write a state.
--
-- auth/tokens.go issues, verifies, lists and revokes tokens: Auth/Tokens, over a repository of
-- which Auth/Tokens/Contract says what is expected. SHA-256 is a parameter, the time and the
-- random bytes are arguments of the methods, and base64 is written out in Base/Base64.
--
-- storage/activity.go and the records of storage/storage.go keep a user's uploads and views:
-- Activity. time.Parse is a parameter, and texts that are no timestamp are read as time zero.
--
-- comments/comments.go: Comments has the types, Comments/Validate the checks on input,
-- Comments/Service the methods that change a thread, and Comments/Listing the method List.
-- Comments/Contract says what is expected of the repository. Comments/Service/Steps makes the
-- requests into a step relation, and Comments/Service/History follows one comment along it.
--
-- storage/fake keeps everything in memory: Fake, with the comment and token methods of its store
-- in Fake/CommentStore and Fake/TokenStore, which meet the two contracts, and those for single
-- artifacts and manifests in Fake/ObjectStore, sites in Fake/SiteStore, cards and verdicts in
-- Fake/CardStore, with the types of storage/storage.go in Storage.
--
-- storage/storage.go: Storage has the interface Store, a record of methods over a state, with its
-- types; the handlers take it as a parameter.
--
-- storage/s3.go and its siblings keep everything in S3: Storage/S3 has the keys and the client,
-- which is a parameter, Storage/S3/Objects the artifacts and sites, Comments, Cards, Verdicts and
-- Tokens the rest, and Manifests the histories with their loop of reads and conditional writes. The
-- keys of comments tell slugs apart that have no slash, and Storage/S3/Comments/Refines is about
-- these.
-- Storage/S3/Bucket says what is expected of S3: reads are consistent, a conditional write is made
-- only if its condition holds, a write that fails may have been made or not. Storage/S3/Codec is
-- what is expected of encoding/json, which is a parameter.
--
-- cmd/server/slug.go: Server/Slug, with the regular expression written out as a matcher.
--
-- cmd/server/identity.go: Server/Identity, from a request to the credentials that the resolver gets,
-- and from its decision to the answer or to what the handlers see. Server/Identity/Wiring builds the
-- resolver from the section on authentication of internal/config/config.go, whose tests, with those
-- on Slack and on the versions of clients, are in Config; Config/Versions says which version is older.
--
-- cmd/server/handlers.go: Server/SitePath has the paths of a site, Server/Gate the inspection before
-- an upload is stored, Server/Upload the upload of one file and what uploads share, Server/Zip that
-- of a site, Server/Upload/Receive the handler that leads to both, and Server/Files the handlers
-- that read and delete. cmd/server/artifacts_handler.go is in Server/Artifacts, comments_handler.go
-- in Server/CommentHandlers, tokens_handler.go in Server/Tokens and cards_handler.go in
-- Server/Cards. A handler takes what it reads of a request and a store, and gives a Response; the
-- store's methods are called in the order of the code, their states passed on.
--
-- preview/card.go: Preview, with clip and squash of preview/preview.go; the image libraries are a
-- parameter. Preview/Summary has the rest of preview/preview.go, but for what parses contents.
--
-- intake/source.go: Intake/Source, the cache before the source of the guidance; the source is a
-- parameter, and the two readings of the clock are arguments. intake/cache.go: Intake/Cache, the
-- inspector that remembers what it has allowed. intake/anthropic.go: Intake/Anthropic, from an input
-- to the content that the model is asked about, and from the response to a verdict; the exchange over
-- HTTP, JSON and the conversion to Markdown are parameters. intake/factory.go, defaults.go and
-- noop.go: Intake/Factory, which inspector is used and where its guidance comes from.
--
-- notify/notify.go: Notify, with Recipients and deliver, and Notify/Dispatch with the queue, what the
-- dispatcher does with one activity, links and excerpts; the notifier, the look-ups and the pause
-- are parameters.
--
-- slackapp: Slack has the client, a parameter over a state, and the blocks of messages;
-- slackapp/guests.go is in Slack/Guests, cards.go in Slack/CardFiles, notifier.go in Slack/Notifier
-- with its escaping in Slack/Text. slackapp/unfurl.go is in Slack/Attachments, which makes an
-- attachment of a preview, and in Slack/Unfurl, from links to previews that are sent;
-- HandleLinkShared, which may ask the sharer, stands with slackapp/consent.go in Slack/Consent. Each
-- keeps its maps in a record of its own, the clock is read from the state of the world, and locks are
-- left out. JSON, url.Parse, strconv.ParseFloat and the posts to a response URL are parameters.
--
-- Tests has runs at fixed inputs.
--
-- Base has what the parts share: texts as Go's package strings treats them, maps as association
-- lists, errors that wrap one another, methods with a state and an error, a stable sort.
--
-- Bounds: times are nanoseconds in the native numbers, not wrapped around, since every sum is of a
-- time and a life of at most 365 days; the life that a request asks for is an int64, and wraps
-- around as it does in the code. Nearly every loop is structural recursion on a list or a text, or
-- on a number of attempts that the code has itself (five for a history, five retries of an upload).
-- The listings of S3 come in pages and take a bound on their number, which S3 sets for each
-- listing; no theorem rests on it. A range over a map visits it in any order: the order is an
-- argument. Case folding is a parameter. ETags are quoted as printable text.
--
-- Not modelled: contexts and their cancellation, but for the test that the gate makes; locks (each
-- method of the fake store holds one for its whole length); the order in which the inspections of
-- one site end, which follow one another here; multipart forms and JSON bodies, of which handlers
-- take what decoding gives; the texts of error answers, the log and the hints for uploaders; the
-- pages of cmd/server, the connection to Slack, the fingerprint of the inspector, the inspection of a
-- file on disk, the parsing of contents for previews, how configuration is read, and the command-line
-- tools. Contracts let a write that returns an error have happened or not, so that what is proved
-- holds for stores that fail in either way.
pub mod Base
pub mod Auth
pub mod Activity
pub mod Comments
pub mod Storage
pub mod Fake
pub mod Server
pub mod Notify
pub mod Preview
pub mod Config
pub mod Slack
pub mod Intake
pub mod Tests
