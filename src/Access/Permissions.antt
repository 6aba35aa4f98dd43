-- ===== src/Access/Permissions.antt =====
-- Who may do what, and that the default user stays.
use vortexkv.Prelude.{
  ◌≡◌, ◌∙◌, refl, sym, ap, inl, inr, Bool, true, false, not, ◌&&◌, ◌||◌, Option, none, some, List,
  [], ◌∷◌, Bytes, bytes, bytes_key, bytes_eq, bytes_eq_iff, if◌then◌else◌, Bool-cases,
}
use vortexkv.Map.{lookup, is_some}
use vortexkv.Map.Laws.{lookup-insert, lookup-delete}
use vortexkv.Access.Rules.{
  among, administrators_names, refused_to_readers, all_admitted, matches_any_pattern_lem,
  one_of-admin_commands, one_of-mutating_commands,
}
use vortexkv.Access.{
  AclUser, AclManager, user_name, check_password, authenticate_found, authenticate, with_patterns,
  set_user, delete_user, one_of, admin_commands, mutating_commands, Verdict, allowed,
  matches_any_pattern, check_keys, check_command, check_account, can_execute,
}

abbrev pub is_allowed : Verdict → Bool
is_allowed allowed = true
is_allowed v = false

-- The rule for a user, as one condition.
abbrev pub may : (Bytes → Bytes → Bool) → AclUser → Bytes → List Bytes → Bool
may matches user cmd keys =
    user.enabled
    && (user.is_admin
        || (not (among cmd administrators_names)
            && not (user.read_only && among cmd refused_to_readers)))
    && all_admitted matches user.key_patterns keys

abbrev pub account_may : (Bytes → Bytes → Bool) → Option AclUser → Bytes → List Bytes → Bool
account_may matches none cmd keys = false
account_may matches (some user) cmd keys = may matches user cmd keys

module _ (to_upper : Bytes → Bytes) (matches : Bytes → Bytes → Bool) where
  check_keys-all_admitted :
      (patterns keys : List Bytes)
      → is_allowed (check_keys to_upper matches patterns keys) ≡ all_admitted matches patterns keys
  unfolding check_keys
  check_keys-all_admitted patterns [] = refl
  check_keys-all_admitted patterns (key ∷ keys) =
      rw (← matches_any_pattern_lem matches to_upper key patterns)
        (elim (Bool-cases (matches_any_pattern to_upper matches key patterns)) [
          | inl yes_ ↦ rw yes_ (check_keys-all_admitted patterns keys)
          | inr no_ ↦ rw no_ refl
        ])

  check_account-may :
      (o : Option AclUser) (cmd : Bytes) (keys : List Bytes)
      → is_allowed (check_account to_upper matches o cmd keys) ≡ account_may matches o cmd keys
  unfolding check_account check_command
  check_account-may none cmd keys = refl
  check_account-may (some user) cmd keys =
      let by_keys : is_allowed (check_keys to_upper matches user.key_patterns keys)
          ≡ all_admitted matches user.key_patterns keys =
        check_keys-all_admitted user.key_patterns keys in
      rw (← one_of-admin_commands cmd, ← one_of-mutating_commands cmd)
        (elim (Bool-cases user.enabled) [
          | inr disabled ↦ rw disabled refl
          | inl enabled ↦ rw enabled (elim (Bool-cases user.is_admin) [
            | inl admin ↦ rw admin by_keys
            | inr plain ↦ rw plain (elim (Bool-cases (one_of admin_commands cmd)) [
              | inl administrative ↦ rw administrative refl
              | inr usual ↦ rw usual (elim (Bool-cases user.read_only) [
                | inr writes ↦ rw writes by_keys
                | inl reads ↦ rw reads (elim (Bool-cases (one_of mutating_commands cmd)) [
                  | inl refused ↦ rw refused refl
                  | inr reading ↦ rw reading by_keys
                ])
              ])
            ])
          ])
        ])

  -- `CanExecute` allows a command exactly if there is an account of that name (an empty name is the
  -- default user's) that is enabled, the user is an administrator or the command, in capitals, is
  -- neither one of the five names for administrators nor, for a read-only user, one of the 33 names
  -- that such users are refused, and every key is admitted by a pattern of the user, without its
  -- tilde: by `filepath.Match` or, if the pattern ends in a star, by beginning with what stands before
  -- it.
  pub can_execute_lem :
      (username cmd_name : Bytes) (keys : List Bytes) (m : AclManager)
      → is_allowed (can_execute to_upper matches username cmd_name keys m)
        ≡ account_may matches (lookup (user_name username) m.users) (to_upper cmd_name) keys
  unfolding can_execute
  can_execute_lem username cmd_name keys m =
      check_account-may (lookup (user_name username) m.users) (to_upper cmd_name) keys

-- Who gets in: an enabled user with the password that was given.
abbrev pub admitted : Bytes → Option AclUser → Option AclUser
admitted password none = none
admitted password (some user) =
    if user.enabled && bytes_eq password user.password then some user else none

check_password_lem :
    (password : Bytes) (user : AclUser)
    → check_password password user ≡ (if bytes_eq password user.password then some user else none)
unfolding check_password
check_password_lem password user = elim (Bool-cases (bytes_eq user.password [])) [
  | inl empty ↦ rw empty (
      ap (λ p. if bytes_eq password p then some user else none)
        (sym ((bytes_eq_iff user.password []).0 empty)))
  | inr set ↦ rw set refl
]

authenticate_found_lem :
    (password : Bytes) (o : Option AclUser) → authenticate_found password o ≡ admitted password o
unfolding authenticate_found
authenticate_found_lem password none = refl
authenticate_found_lem password (some user) =
    gate user.enabled (bytes_eq password user.password) (check_password_lem password user)
  where
    gate :
        (b c : Bool) {o : Option AclUser}
        → o ≡ (if c then some user else none)
        → (if not b then none else o) ≡ (if b && c then some user else none)
    gate true c h = h
    gate false c h = refl

-- `Authenticate` answers with the user of that name (an empty name is the default user's) exactly if
-- there is one, it is enabled and its password is the one that was given, an empty one included.
pub authenticate_lem :
    (username password : Bytes) (m : AclManager)
    → authenticate username password m ≡ admitted password (lookup (user_name username) m.users)
unfolding authenticate
authenticate_lem username password m =
    authenticate_found_lem password (lookup (user_name username) m.users)

-- What administrators do to the table of users.
pub data Step (m : AclManager) : AclManager → Type 0 where
  sets : (user : AclUser) → Step m (set_user user m)
  deletes : (username : Bytes) → Step m (delete_user username m).1

pub data Reach (m : AclManager) : AclManager → Type 0 where
  here : Reach m m
  later : {n k : AclManager} → Reach m n → Step n k → Reach m k

Step-default :
    {m n : AclManager}
    → Step m n
    → is_some (lookup (bytes "default") m.users) ≡ true
    → is_some (lookup (bytes "default") n.users) ≡ true
Step-default {m} (sets user) h =
    let now = lookup-insert user.username (bytes "default") (with_patterns user) m.users in
    unfold set_user in
    ap is_some now ∙ elim (Bool-cases (bytes_eq user.username (bytes "default"))) [
      | inl same ↦ rw same (unfold is_some in refl)
      | inr other ↦ rw other h
    ]
Step-default {m} (deletes username) h =
    unfold delete_user in
    elim (Bool-cases (bytes_eq username (bytes "default"))) [
      | inl same ↦ rw same h
      | inr other ↦ elim (Bool-cases (is_some (lookup username m.users))) [
        | inr missing ↦ rw (other, missing) h
        | inl found ↦
            rw (other, found)
              (ap is_some (lookup-delete username (bytes "default") m.users) ∙ rw other h)
      ]
    ]

-- From a table that has the default user, no sequence of settings and deletions leads to one without.
pub Reach-default :
    {m n : AclManager}
    → Reach m n
    → is_some (lookup (bytes "default") m.users) ≡ true
    → is_some (lookup (bytes "default") n.users) ≡ true
Reach-default here h = h
Reach-default (later r s) h = Step-default s (Reach-default r h)
