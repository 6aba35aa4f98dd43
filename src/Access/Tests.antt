-- ===== src/Access/Tests.antt =====
-- A table with a reader, and the theorems about it.
use vortexkv.Prelude.{◌≡◌, refl, true, false, [], ◌∷◌, bytes, bytes_key, bytes_eq}
use vortexkv.Map.{lookup, is_some}
use vortexkv.Access.{
  AclUser, AclManager, role_read_only, new_acl_manager, user_name, set_user, delete_user,
  authenticate, can_execute,
}
use vortexkv.Access.Permissions.{
  is_allowed, account_may, can_execute_lem, admitted, authenticate_lem, here, later, deletes,
  Reach-default,
}

abbrev reader : AclUser
reader = record {
  username = bytes "ann";
  password = bytes "secret";
  enabled = true;
  is_admin = false;
  role = role_read_only;
  key_patterns = bytes "~cache:*" ∷ [];
  read_only = true;
}

abbrev table : AclManager
table = set_user reader (new_acl_manager [])

can_execute_lem_example :
    is_allowed
      (can_execute (λ s. s) bytes_eq (bytes "ann") (bytes "GET") (bytes "cache:1" ∷ []) table)
    ≡ account_may bytes_eq
        (lookup (user_name (bytes "ann")) table.users)
        (bytes "GET")
        (bytes "cache:1" ∷ [])
can_execute_lem_example =
    can_execute_lem (λ s. s) bytes_eq (bytes "ann") (bytes "GET") (bytes "cache:1" ∷ []) table

authenticate_lem_example :
    authenticate (bytes "ann") (bytes "secret") table
    ≡ admitted (bytes "secret") (lookup (user_name (bytes "ann")) table.users)
authenticate_lem_example = authenticate_lem (bytes "ann") (bytes "secret") table

table_default : is_some (lookup (bytes "default") table.users) ≡ true
unfolding set_user new_acl_manager is_some lookup vortexkv.Map.insert bytes_eq
table_default = refl

Reach-default_example :
    is_some (
      lookup
        (bytes "default")
        (delete_user (bytes "ann") (delete_user (bytes "default") table).1).1.users)
    ≡ true
Reach-default_example =
    Reach-default (later (later here (deletes (bytes "default"))) (deletes (bytes "ann")))
      table_default
