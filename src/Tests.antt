-- ===== src/Tests.antt =====
-- Test data and runs at fixed inputs, which show that the theorems' hypotheses can hold.
mod Data
mod Resolver
mod Tokens
mod Activity
mod Comments
mod Threads
mod Slug
mod Notify
mod Objects
mod Intake
mod Bucket
mod Manifests
mod Identity
mod Uploads
mod Preview
mod Config
mod Slack
mod CommentBucket
mod Inspector
