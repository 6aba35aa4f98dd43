-- ===== src/Resp/Values.antt =====
-- internal/resp/types.go: the values of the wire format, by their type byte. `BulkBytes(nil)` is nil_bulk,
-- a bulk string that is not marked as null; a value of a type byte that no switch names is untyped.
use vortexkv.Prelude.{ℕ, suc, Bool, List, [], ◌∷◌, ◌++◌, Bytes, bytes}
use vortexkv.Prelude.Int.{ℤ}
use vortexkv.Prelude.Decimal.{print, print_int}

mutual
  pub data Value : Type 0 where
    simple_string : Bytes → Value
    error : Bytes → Value
    integer : ℤ → Value
    bulk_string : Bytes → Value
    nil_bulk null null_array : Value
    boolean : Bool → Value
    array : Values → Value
    untyped : ℕ → Value

  pub data Values : Type 0 where
    nil : Values
    cons : Value → Values → Values

unfoldable pub count : Values → ℕ
count nil = 0
count (cons v vs) = suc (count vs)

-- An array of bulk strings.
unfoldable pub bulk_strings : List Bytes → Values
bulk_strings [] = nil
bulk_strings (a ∷ as') = cons (bulk_string a) (bulk_strings as')

-- `String`
unfoldable pub value_string : Value → Bytes
unfolding count
value_string (simple_string s) = s
value_string (error s) = s
value_string (integer n) = print_int n
value_string (bulk_string s) = s
value_string nil_bulk = []
value_string null = bytes "(nil)"
value_string null_array = bytes "(nil)"
value_string (array vs) = bytes "[" ++ (print (count vs) ++ bytes " items]")
value_string (boolean b) = []
value_string (untyped t) = []
