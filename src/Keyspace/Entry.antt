-- ===== src/Keyspace/Entry.antt =====
-- What a key holds.
use vortexkv.Prelude.{ℕ, Bool, true, false, ◌&&◌, Bytes}
use vortexkv.Prelude.Int.{ℤ, pos, lt_ℤ, le_ℤ}

pub data EntryType : Type 0 where
  type_string type_hash type_list type_set type_zset type_vector type_stream : EntryType

unfoldable pub is_string : EntryType → Bool
is_string type_string = true
is_string _ = false

-- `Value any`: a Go string, or a pointer to a collection (its address).
pub data Value : Type 0 where
  text : Bytes → Value
  object : ℕ → Value

-- Times are Unix milliseconds; `expires_at` is 0 for no expiration.
pub record Entry : Type 0 where
  pub entry_type : EntryType
  pub value : Value
  pub expires_at : ℤ
  pub updated_at : ℤ
  pub last_accessed_at : ℤ

unfoldable pub is_expired : Entry → ℤ → Bool
is_expired e now = lt_ℤ (pos 0) e.expires_at && le_ℤ e.expires_at now
