-- ===== src/Fake.antt =====
-- storage/fake: the in-memory Store. This file has its state; the operations are in the modules
-- below. The locks are not modelled: each operation holds one for its whole length.
pub mod CommentStore
pub mod TokenStore
pub mod ObjectStore
pub mod SiteStore
pub mod CardStore
use open_trove.Base.{ℕ, String, Bool, List, []}
use open_trove.Base.Dict.{Dict}
use open_trove.Comments.{Comment}
use open_trove.Activity.{UserManifest}
use open_trove.Auth.Tokens.{Token}
use open_trove.Storage.{Card}

pub record StoredObject : Type 0 where
  pub contents : List ℕ
  pub content_type : String
  pub filename : String
  pub custom_slug : Bool
  pub owner_email : String
  pub flagged : Bool

pub record Store : Type 0 where
  pub objects : Dict StoredObject
  pub manifests : Dict UserManifest
  pub comments : Dict (List Comment)
  pub tokens : Dict Token
  pub cards : Dict Card
  -- a set of keys
  pub verdicts : Dict (Unit {0})

abbrev pub new_store : Store
new_store = record {
  objects = [];
  manifests = [];
  comments = [];
  tokens = [];
  cards = [];
  verdicts = [];
}
