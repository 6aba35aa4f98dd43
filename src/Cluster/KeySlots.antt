-- ===== src/Cluster/KeySlots.antt =====
-- internal/cluster/crc16.go: the slot of a key.
use vortexkv.Prelude.{
  ℕ, suc, sym, bit_and-le, ◌+◌, ◌-◌, ◌*◌, ◌/◌, ◌%◌, ◌^◌, ◌≡◌, ◌<◌, refl, ap, ◌∙◌, Option, none,
  some, List, [], ◌∷◌, ◌++◌, Bytes, length, take, drop, get_or, arith, take-append_length,
}
use Prim.Native.Nat.{bit_xor, bit_and}
use vortexkv.Reactor.Parser.{index_byte}

abbrev crc16_table : List ℕ
crc16_table =
    0 ∷ 4129 ∷ 8258 ∷ 12387 ∷ 16516 ∷ 20645 ∷ 24774 ∷ 28903 ∷ 33032 ∷ 37161 ∷ 41290 ∷ 45419 ∷ 49548
    ∷ 53677 ∷ 57806 ∷ 61935 ∷ 4657 ∷ 528 ∷ 12915 ∷ 8786 ∷ 21173 ∷ 17044 ∷ 29431 ∷ 25302 ∷ 37689
    ∷ 33560 ∷ 45947 ∷ 41818 ∷ 54205 ∷ 50076 ∷ 62463 ∷ 58334 ∷ 9314 ∷ 13379 ∷ 1056 ∷ 5121 ∷ 25830
    ∷ 29895 ∷ 17572 ∷ 21637 ∷ 42346 ∷ 46411 ∷ 34088 ∷ 38153 ∷ 58862 ∷ 62927 ∷ 50604 ∷ 54669 ∷ 13907
    ∷ 9842 ∷ 5649 ∷ 1584 ∷ 30423 ∷ 26358 ∷ 22165 ∷ 18100 ∷ 46939 ∷ 42874 ∷ 38681 ∷ 34616 ∷ 63455
    ∷ 59390 ∷ 55197 ∷ 51132 ∷ 18628 ∷ 22757 ∷ 26758 ∷ 30887 ∷ 2112 ∷ 6241 ∷ 10242 ∷ 14371 ∷ 51660
    ∷ 55789 ∷ 59790 ∷ 63919 ∷ 35144 ∷ 39273 ∷ 43274 ∷ 47403 ∷ 23285 ∷ 19156 ∷ 31415 ∷ 27286 ∷ 6769
    ∷ 2640 ∷ 14899 ∷ 10770 ∷ 56317 ∷ 52188 ∷ 64447 ∷ 60318 ∷ 39801 ∷ 35672 ∷ 47931 ∷ 43802 ∷ 27814
    ∷ 31879 ∷ 19684 ∷ 23749 ∷ 11298 ∷ 15363 ∷ 3168 ∷ 7233 ∷ 60846 ∷ 64911 ∷ 52716 ∷ 56781 ∷ 44330
    ∷ 48395 ∷ 36200 ∷ 40265 ∷ 32407 ∷ 28342 ∷ 24277 ∷ 20212 ∷ 15891 ∷ 11826 ∷ 7761 ∷ 3696 ∷ 65439
    ∷ 61374 ∷ 57309 ∷ 53244 ∷ 48923 ∷ 44858 ∷ 40793 ∷ 36728 ∷ 37256 ∷ 33193 ∷ 45514 ∷ 41451 ∷ 53516
    ∷ 49453 ∷ 61774 ∷ 57711 ∷ 4224 ∷ 161 ∷ 12482 ∷ 8419 ∷ 20484 ∷ 16421 ∷ 28742 ∷ 24679 ∷ 33721
    ∷ 37784 ∷ 41979 ∷ 46042 ∷ 49981 ∷ 54044 ∷ 58239 ∷ 62302 ∷ 689 ∷ 4752 ∷ 8947 ∷ 13010 ∷ 16949
    ∷ 21012 ∷ 25207 ∷ 29270 ∷ 46570 ∷ 42443 ∷ 38312 ∷ 34185 ∷ 62830 ∷ 58703 ∷ 54572 ∷ 50445 ∷ 13538
    ∷ 9411 ∷ 5280 ∷ 1153 ∷ 29798 ∷ 25671 ∷ 21540 ∷ 17413 ∷ 42971 ∷ 47098 ∷ 34713 ∷ 38840 ∷ 59231
    ∷ 63358 ∷ 50973 ∷ 55100 ∷ 9939 ∷ 14066 ∷ 1681 ∷ 5808 ∷ 26199 ∷ 30326 ∷ 17941 ∷ 22068 ∷ 55628
    ∷ 51565 ∷ 63758 ∷ 59695 ∷ 39368 ∷ 35305 ∷ 47498 ∷ 43435 ∷ 22596 ∷ 18533 ∷ 30726 ∷ 26663 ∷ 6336
    ∷ 2273 ∷ 14466 ∷ 10403 ∷ 52093 ∷ 56156 ∷ 60223 ∷ 64286 ∷ 35833 ∷ 39896 ∷ 43963 ∷ 48026 ∷ 19061
    ∷ 23124 ∷ 27191 ∷ 31254 ∷ 2801 ∷ 6864 ∷ 10931 ∷ 14994 ∷ 64814 ∷ 60687 ∷ 56684 ∷ 52557 ∷ 48554
    ∷ 44427 ∷ 40424 ∷ 36297 ∷ 31782 ∷ 27655 ∷ 23652 ∷ 19525 ∷ 15522 ∷ 11395 ∷ 7392 ∷ 3265 ∷ 61215
    ∷ 65342 ∷ 53085 ∷ 57212 ∷ 44955 ∷ 49082 ∷ 36825 ∷ 40952 ∷ 28183 ∷ 32310 ∷ 20053 ∷ 24180 ∷ 11923
    ∷ 16050 ∷ 3793 ∷ 7920 ∷ []

-- `CRC16`, with the register so far
unfoldable pub crc16_from : ℕ → Bytes → ℕ
crc16_from crc [] = crc
crc16_from crc (b ∷ bs) =
    crc16_from
      (bit_xor (crc * 2 ^ 8 % 2 ^ 16)
        (get_or crc16_table (bit_and (bit_xor (crc / 2 ^ 8) b) 255) 0))
      bs

unfoldable pub crc16 : Bytes → ℕ
crc16 bs = crc16_from 0 bs

unfoldable pub tag_or_key : Bytes → Bytes → Bytes
tag_or_key key [] = key
tag_or_key key (c ∷ cs) = c ∷ cs

unfoldable pub tag_at : Bytes → Bytes → Option ℕ → Bytes
unfolding tag_or_key
tag_at key rest none = key
tag_at key rest (some e) = tag_or_key key (take e rest)

unfoldable pub tag_from : Bytes → Option ℕ → Bytes
unfolding tag_at
tag_from key none = key
tag_from key (some s) = tag_at key (drop (s + 1) key) (index_byte b'}' (drop (s + 1) key))

unfoldable pub extract_hash_tag : Bytes → Bytes
unfolding tag_from
extract_hash_tag key = tag_from key (index_byte b'{' key)

unfoldable pub key_slot : Bytes → ℕ
key_slot key = bit_and (crc16 (extract_hash_tag key)) (2 ^ 14 - 1)

-- A key with a tag between its first braces.
abbrev pub tagged : Bytes → Bytes → Bytes → Bytes
tagged pre tag post = pre ++ (b'{' ∷ (tag ++ (b'}' ∷ post)))

index_byte-append :
    (b : ℕ) (xs ys : Bytes)
    → index_byte b xs ≡ none
    → index_byte b (xs ++ b ∷ ys) ≡ some (length xs)
unfolding index_byte
index_byte-append b [] ys h = ground arith
index_byte-append b (x ∷ xs) ys h = ground (arith, h, index_byte-append b xs ys)

drop-past : (b : ℕ) (xs ys : Bytes) → drop (length xs + 1) (xs ++ b ∷ ys) ≡ ys
drop-past b [] ys = refl
drop-past b (x ∷ xs) ys =
    ap (λ n. drop n ((x ∷ xs) ++ b ∷ ys)) {x = length (x ∷ xs) + 1} {y = suc (length xs + 1)}
      (omega arith)
    ∙ drop-past b xs ys

-- The tag is what stands between the first "{" and the first "}" behind it, unless that is empty.
pub extract_hash_tag-tagged :
    (pre post : Bytes) (c : ℕ) (cs : Bytes)
    → index_byte b'{' pre ≡ none
    → index_byte b'}' (c ∷ cs) ≡ none
    → extract_hash_tag (tagged pre (c ∷ cs) post) ≡ c ∷ cs
extract_hash_tag-tagged pre post c cs h h' =
    let key : Bytes = tagged pre (c ∷ cs) post in
    let rest : Bytes = (c ∷ cs) ++ (b'}' ∷ post) in
    let first : extract_hash_tag key ≡ tag_from key (some (length pre)) =
      unfold extract_hash_tag in ap (tag_from key) (index_byte-append b'{' pre rest h) in
    let second : tag_from key (some (length pre)) ≡ tag_at key rest (index_byte b'}' rest) =
      unfold tag_from in
      ap (λ r. tag_at key r (index_byte b'}' r)) {x = drop (length pre + 1) key} {y = rest}
        (drop-past b'{' pre rest) in
    let third : tag_at key rest (index_byte b'}' rest) ≡ tag_at key rest (some (length (c ∷ cs))) =
      ap (tag_at key rest) (index_byte-append b'}' (c ∷ cs) post h') in
    let fourth : tag_at key rest (some (length (c ∷ cs))) ≡ c ∷ cs =
      unfold tag_at tag_or_key in
      ap (tag_or_key key) {x = take (length (c ∷ cs)) rest} {y = c ∷ cs}
        (take-append_length (c ∷ cs) (b'}' ∷ post)) in
    first ∙ second ∙ third ∙ fourth

-- Keys with one tag share a slot, which exists.
pub key_slot-tagged :
    (pre post pre' post' : Bytes) (c : ℕ) (cs : Bytes)
    → index_byte b'{' pre ≡ none
    → index_byte b'{' pre' ≡ none
    → index_byte b'}' (c ∷ cs) ≡ none
    → (key_slot (tagged pre (c ∷ cs) post) ≡ key_slot (tagged pre' (c ∷ cs) post'))
      × (key_slot (tagged pre (c ∷ cs) post) < 2 ^ 14)
unfolding key_slot
key_slot-tagged pre post pre' post' c cs h h' t = (
  ap (λ k. bit_and (crc16 k) (2 ^ 14 - 1))
      (extract_hash_tag-tagged pre post c cs h t
        ∙ sym (extract_hash_tag-tagged pre' post' c cs h' t)),
  omega (arith, bit_and-le (crc16 (extract_hash_tag (tagged pre (c ∷ cs) post))) (2 ^ 14 - 1)),
)
