-- ===== src/NameServer.antt =====
-- nm.c and the records of common.h: the state of the name server.
pub mod Users
pub mod Access
pub mod Requests
pub mod Files
pub mod Servers
pub mod Clients
pub mod Forwarding
pub mod Views
pub mod Dispatch
pub mod Events
use docs_plus_plus.Base.{ℕ, ℤ, Bool, Option, List, Text}
use docs_plus_plus.Trie.{Trie}
use docs_plus_plus.Cache.{LruCache}

pub data AccessType : Type 0 where
  access_none access_read access_write access_readwrite : AccessType

pub record AclEntry : Type 0 where
  pub username : Text
  pub access : AccessType

-- The entries of `acl` up to `acl_count` are a list.
pub record FileMetadata : Type 0 where
  pub filename : Text
  pub folder_path : Text
  pub owner : Text
  pub ss_id : ℕ
  pub size : ℕ
  pub word_count : ℕ
  pub char_count : ℕ
  pub created : ℕ
  pub modified : ℕ
  pub accessed : ℕ
  pub last_accessed_by : Text
  pub acl : List AclEntry

pub record AccessRequest : Type 0 where
  pub username : Text
  pub filename : Text
  pub requested_access : AccessType
  pub request_time : ℕ

-- A `client_sock` of -1 is `none`.
pub record RegisteredUser : Type 0 where
  pub username : Text
  pub first_registered : ℕ
  pub last_seen : ℕ
  pub active_session : Bool
  pub client_sock : Option ℕ

-- The field `parent_path` is the target path of the request.
pub record FolderMetadata : Type 0 where
  pub foldername : Text
  pub parent_path : Text
  pub owner : Text
  pub created : ℕ
  pub ss_id : ℕ
  pub acl : List AclEntry

-- A `hb_sock` of -1 is `none`; the files up to `file_count` are a list.
pub record StorageServerInfo : Type 0 where
  pub id : ℕ
  pub ip : Text
  pub nm_port : ℤ
  pub client_port : ℤ
  pub sock : ℕ
  pub hb_sock : Option ℕ
  pub active : Bool
  pub last_heartbeat : ℕ
  pub files : List Text

pub record ClientInfo : Type 0 where
  pub username : Text
  pub ip : Text
  pub sock : ℕ
  pub connected : ℕ

-- The arrays up to their counts are lists, but for `client_list`, whose slots are read behind its
-- count too.
pub record NameServer : Type 0 where
  pub file_trie : Trie FileMetadata
  pub folder_trie : Trie FolderMetadata
  pub cache : LruCache FileMetadata
  pub registered_users : List RegisteredUser
  pub client_list : ℕ → ClientInfo
  pub client_count : ℕ
  pub access_requests : List AccessRequest
  pub ss_list : List StorageServerInfo
  pub next_ss_id : ℕ
