-- ===== src/Access/Info.antt =====
-- The description of the service in src/backend/access.rs.
use opendal_indexeddb.Base.{Str, Bool, true, false, Option, some, ℕ, lit}

-- `DELETE_MAX_SIZE`
abbrev pub delete_max_size : ℕ
delete_max_size = 100

-- `SCHEME`
abbrev pub scheme : Str
scheme = lit "indexeddb"

-- `opendal::Capability`, as far as the crate sets it. A flag is named `can_` and what it
-- is called there, and `delete_max_size` is `max_delete`.
pub record Capability : Type 0 where
  pub can_read : Bool
  pub can_write : Bool
  pub can_write_can_empty : Bool
  pub can_write_can_append : Bool
  pub can_write_with_if_not_exists : Bool
  pub can_copy : Bool
  pub can_copy_with_if_not_exists : Bool
  pub can_copy_with_if_match : Bool
  pub can_rename : Bool
  pub can_create_dir : Bool
  pub can_delete : Bool
  pub can_delete_with_recursive : Bool
  pub max_delete : Option ℕ
  pub can_stat : Bool
  pub can_stat_with_if_match : Bool
  pub can_stat_with_if_none_match : Bool
  pub can_stat_with_if_modified_since : Bool
  pub can_stat_with_if_unmodified_since : Bool
  pub can_list : Bool
  pub can_list_with_recursive : Bool
  pub can_list_with_limit : Bool
  pub can_list_with_start_after : Bool
  pub can_read_with_if_match : Bool
  pub can_read_with_if_none_match : Bool
  pub can_read_with_if_modified_since : Bool
  pub can_read_with_if_unmodified_since : Bool
  pub can_write_with_if_match : Bool
  pub can_write_with_if_none_match : Bool
  pub can_write_with_content_type : Bool
  pub can_write_with_user_metadata : Bool
  pub can_shared : Bool

abbrev pub native_capability : Capability
native_capability = record {
  can_read = true;
  can_write = true;
  can_write_can_empty = true;
  can_write_can_append = true;
  can_write_with_if_not_exists = true;
  can_copy = true;
  can_copy_with_if_not_exists = true;
  can_copy_with_if_match = true;
  can_rename = true;
  can_create_dir = true;
  can_delete = true;
  can_delete_with_recursive = true;
  max_delete = some delete_max_size;
  can_stat = true;
  can_stat_with_if_match = true;
  can_stat_with_if_none_match = true;
  can_stat_with_if_modified_since = true;
  can_stat_with_if_unmodified_since = true;
  can_list = true;
  can_list_with_recursive = true;
  can_list_with_limit = true;
  can_list_with_start_after = true;
  can_read_with_if_match = true;
  can_read_with_if_none_match = true;
  can_read_with_if_modified_since = true;
  can_read_with_if_unmodified_since = true;
  can_write_with_if_match = true;
  can_write_with_if_none_match = true;
  can_write_with_content_type = true;
  can_write_with_user_metadata = true;
  can_shared = false;
}

-- `AccessorInfo`, as far as the crate sets it.
pub record AccessorInfo : Type 0 where
  pub scheme_of : Str
  pub name : Str
  pub root : Str
  pub native : Capability
