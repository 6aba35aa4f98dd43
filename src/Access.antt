-- ===== src/Access.antt =====
-- internal/engine/acl.go: users, their passwords and what they may do. A method is what it does under
-- the manager's lock. `strings.ToUpper` and `filepath.Match` are parameters.
pub mod Rules
pub mod Permissions
mod Tests
use vortexkv.Prelude.{
  ℕ, ◌-◌, Bool, true, false, not, ◌&&◌, ◌||◌, Option, none, some, List, [], ◌∷◌, ◌++◌, Bytes, bytes,
  bytes_key, bytes_eq, length, take, drop, leb, ◌==◌, if◌then◌else◌,
}
use vortexkv.Map.{Map, lookup, insert, delete, is_some}

pub data UserRole : Type 0 where
  role_admin role_read_write role_read_only : UserRole

pub record AclUser : Type 0 where
  pub username : Bytes
  pub password : Bytes
  pub enabled : Bool
  pub is_admin : Bool
  pub role : UserRole
  pub key_patterns : List Bytes
  pub read_only : Bool

pub record AclManager : Type 0 where
  pub users : Map Bytes AclUser

unfoldable pub new_acl_manager : Bytes → AclManager
new_acl_manager default_password = record {
  users =
      (
        bytes "default",
        record {
          username = bytes "default";
          password = default_password;
          enabled = true;
          is_admin = true;
          role = role_admin;
          key_patterns = bytes "*" ∷ [];
          read_only = false;
        },
      )
      ∷ [];
}

-- An empty name is the default user's.
unfoldable pub user_name : Bytes → Bytes
user_name username = if bytes_eq username [] then bytes "default" else username

unfoldable pub check_password : Bytes → AclUser → Option AclUser
check_password password user =
    if bytes_eq user.password []
    then (if bytes_eq password [] then some user else none)
    else if bytes_eq password user.password
    then some user
    else none

unfoldable pub authenticate_found : Bytes → Option AclUser → Option AclUser
unfolding check_password
authenticate_found password none = none
authenticate_found password (some user) =
    if not user.enabled then none else check_password password user

unfoldable pub authenticate : Bytes → Bytes → AclManager → Option AclUser
unfolding authenticate_found user_name
authenticate username password m = authenticate_found password (lookup (user_name username) m.users)

unfoldable pub with_patterns : AclUser → AclUser
with_patterns user = elim user.key_patterns [
  | [] ↦ record user { key_patterns = bytes "*" ∷ [] }
  | p ∷ ps ↦ user
]

unfoldable pub set_user : AclUser → AclManager → AclManager
unfolding with_patterns
set_user user m = record m { users = insert user.username (with_patterns user) m.users }

unfoldable pub get_user : Bytes → AclManager → Option AclUser
get_user username m = lookup username m.users

unfoldable pub delete_user : Bytes → AclManager → Bool × AclManager
delete_user username m =
    if bytes_eq username (bytes "default")
    then (false, m)
    else if not (is_some (lookup username m.users))
    then (false, m)
    else (true, record m { users = delete username m.users })

abbrev pub one_of : List Bytes → Bytes → Bool
one_of [] name = false
one_of (n ∷ ns) name = bytes_eq n name || one_of ns name

abbrev pub admin_commands : List Bytes
admin_commands =
    bytes "FLUSHDB"
    ∷ bytes "FLUSHALL"
    ∷ bytes "CONFIG"
    ∷ bytes "SHUTDOWN"
    ∷ bytes "BGREWRITEAOF"
    ∷ []

abbrev pub mutating_commands : List Bytes
mutating_commands =
    bytes "SET"
    ∷ bytes "SETEX"
    ∷ bytes "SETNX"
    ∷ bytes "MSET"
    ∷ bytes "DEL"
    ∷ bytes "INCR"
    ∷ bytes "INCRBY"
    ∷ bytes "DECR"
    ∷ bytes "DECRBY"
    ∷ bytes "LPUSH"
    ∷ bytes "RPUSH"
    ∷ bytes "LPOP"
    ∷ bytes "RPOP"
    ∷ bytes "HSET"
    ∷ bytes "HMSET"
    ∷ bytes "HDEL"
    ∷ bytes "HINCRBY"
    ∷ bytes "SADD"
    ∷ bytes "SREM"
    ∷ bytes "ZADD"
    ∷ bytes "ZREM"
    ∷ bytes "ZINCRBY"
    ∷ bytes "VADD"
    ∷ bytes "VDEL"
    ∷ bytes "XADD"
    ∷ bytes "XDEL"
    ∷ bytes "XTRIM"
    ∷ bytes "XGROUP"
    ∷ bytes "XACK"
    ∷ bytes "EXPIRE"
    ∷ bytes "EXPIREAT"
    ∷ bytes "SAVE"
    ∷ bytes "BGSAVE"
    ∷ []

-- The answer with its reason, without the names that the text repeats.
pub data Verdict : Type 0 where
  allowed no_account admin_only read_only_user : Verdict
  key_refused : Bytes → Verdict

abbrev pub trim_tilde : Bytes → Bytes
trim_tilde [] = []
trim_tilde (c ∷ cs) = if c == b'~' then cs else c ∷ cs

-- `strings.HasPrefix`
abbrev pub has_prefix : Bytes → Bytes → Bool
has_prefix key prefix =
    leb (length prefix) (length key) && bytes_eq (take (length prefix) key) prefix

-- `strings.HasSuffix(clean, "*")` and `strings.HasPrefix(key, strings.TrimSuffix(clean, "*"))`
abbrev pub star_prefix : Bytes → Bytes → Bool
star_prefix clean key =
    let n = length clean - 1 in
    leb 1 (length clean) && bytes_eq (drop n clean) (bytes "*") && has_prefix key (take n clean)

module _ (to_upper : Bytes → Bytes) (matches : Bytes → Bytes → Bool) where
  unfoldable pub matches_any_pattern : Bytes → List Bytes → Bool
  matches_any_pattern key [] = false
  matches_any_pattern key (p ∷ ps) =
      let clean = trim_tilde p in
      let later = matches_any_pattern key ps in
      if bytes_eq p (bytes "*") || bytes_eq p (bytes "~*")
      then true
      else if matches clean key
      then true
      else if star_prefix clean key
      then true
      else later

  unfoldable pub check_keys : List Bytes → List Bytes → Verdict
  unfolding matches_any_pattern
  check_keys patterns [] = allowed
  check_keys patterns (key ∷ keys) =
      let later = check_keys patterns keys in
      if not (matches_any_pattern key patterns) then key_refused key else later

  unfoldable pub check_command : AclUser → Bytes → List Bytes → Verdict
  unfolding check_keys
  check_command user cmd keys =
      let by_keys = check_keys user.key_patterns keys in
      if not user.is_admin
      then (if one_of admin_commands cmd
          then admin_only
          else if user.read_only
          then (if one_of mutating_commands cmd then read_only_user else by_keys)
          else by_keys)
      else by_keys

  unfoldable pub check_account : Option AclUser → Bytes → List Bytes → Verdict
  unfolding check_command
  check_account none cmd keys = no_account
  check_account (some user) cmd keys =
      if not user.enabled then no_account else check_command user cmd keys

  unfoldable pub can_execute : Bytes → Bytes → List Bytes → AclManager → Verdict
  unfolding check_account user_name
  can_execute username cmd_name keys m =
      check_account (lookup (user_name username) m.users) (to_upper cmd_name) keys
