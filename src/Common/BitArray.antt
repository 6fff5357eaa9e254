-- ===== src/Common/BitArray.antt =====
-- libs/common/bit_array.go: bits in words of 64; `none` is a nil `*BitArray`. An array that
-- `NewBitArray` made has a word for each of its bits, so the indices below its size are in range.
use Prim.Native.Nat.{bit_and, bit_or}
use mathlib.Core.Option
use de_mars_dmc.Prelude.{
  ℕ, zero, suc, ◌+◌, ◌-◌, ◌*◌, ◌/◌, ◌%◌, ◌^◌, Bool, true, false, ◌&&◌, not, Option, none, some,
  List, [], ◌∷◌, ◌++◌, map, length, take, set, get_or, replicate, ltb, leb, ◌==◌, if◌then◌else◌,
}

pub record BitArray : Type 0 where
  pub bits : ℕ
  pub elems : List ℕ

-- `^uint64(0)`
abbrev pub max_word : ℕ
max_word = 18446744073709551615

abbrev pub min_int : ℕ → ℕ → ℕ
min_int a b = if ltb a b then a else b

abbrev pub max_int : ℕ → ℕ → ℕ
max_int a b = if ltb b a then a else b

-- `NewBitArray`; a negative size gives nil too.
unfoldable pub new_bit_array : ℕ → Option BitArray
new_bit_array zero = none
new_bit_array (suc n) = some (record { bits = suc n; elems = replicate ((suc n + 63) / 64) 0 })

unfoldable pub bit_size : Option BitArray → ℕ
bit_size none = 0
bit_size (some ba) = ba.bits

unfoldable pub get_index_of : BitArray → ℕ → Bool
get_index_of ba i =
    if leb ba.bits i then false else ltb 0 (bit_and (get_or ba.elems (i / 64) 0) (2 ^ (i % 64)))

unfoldable pub get_index : Option BitArray → ℕ → Bool
unfolding get_index_of
get_index none i = false
get_index (some ba) i = get_index_of ba i

unfoldable pub set_index_of : BitArray → ℕ → Bool → Bool × BitArray
set_index_of ba i v =
    if leb ba.bits i
    then (false, ba)
    else (let elem = get_or ba.elems (i / 64) 0 in
        let elem' =
          if v then bit_or elem (2 ^ (i % 64)) else bit_and elem (max_word - 2 ^ (i % 64)) in
        (true, record ba { elems = set ba.elems (i / 64) elem' }))

unfoldable pub set_index : Option BitArray → ℕ → Bool → Bool × Option BitArray
unfolding set_index_of
set_index none i v = (false, none)
set_index (some ba) i v = (let (done, ba') = set_index_of ba i v in (done, some ba'))

-- `copyBits`: the words that fit, then zeros.
unfoldable pub copy_bits : BitArray → ℕ → BitArray
copy_bits ba bits =
    let n = (bits + 63) / 64 in
    record { bits = bits; elems = take n ba.elems ++ replicate (n - length ba.elems) 0 }

-- A loop over the words of the first array; `none` is the panic where the second is shorter.
unfoldable pub zip_words : (ℕ → ℕ → ℕ) → List ℕ → List ℕ → Option (List ℕ)
zip_words f [] os = some []
zip_words f (c ∷ cs) [] = none
zip_words f (c ∷ cs) (o ∷ os) = Option.map (λ rest. f c o ∷ rest) (zip_words f cs os)

-- `Or`, `And` and `Sub` return nil or an array; the outer `none` is a panic.
unfoldable pub bits_or : Option BitArray → Option BitArray → Option (Option BitArray)
unfolding copy_bits zip_words
bits_or none none = some none
bits_or none (some o) = some (some o)
bits_or (some ba) none = some (some ba)
bits_or (some ba) (some o) =
    let c = copy_bits ba (max_int ba.bits o.bits) in
    Option.map (λ elems. some (record c { elems = elems })) (zip_words bit_or c.elems o.elems)

unfoldable pub bits_and_of : BitArray → BitArray → Option BitArray
unfolding copy_bits zip_words
bits_and_of ba o =
    let c = copy_bits ba (min_int ba.bits o.bits) in
    Option.map (λ elems. record c { elems = elems }) (zip_words bit_and c.elems o.elems)

unfoldable pub bits_and : Option BitArray → Option BitArray → Option (Option BitArray)
unfolding bits_and_of
bits_and none o = some none
bits_and (some ba) none = some none
bits_and (some ba) (some o) = Option.map (λ c. some c) (bits_and_of ba o)

unfoldable pub bits_not_of : BitArray → BitArray
bits_not_of ba = record ba { elems = map (λ e. max_word - e) ba.elems }

unfoldable pub bits_not : Option BitArray → Option BitArray
unfolding bits_not_of
bits_not none = none
bits_not (some ba) = some (bits_not_of ba)

-- The loop of `Sub` over all words but the last one of `o`: each is and-ed with its own complement.
unfoldable pub sub_words : ℕ → List ℕ → List ℕ
sub_words zero cs = cs
sub_words (suc n) [] = []
sub_words (suc n) (c ∷ cs) = bit_and c (max_word - c) ∷ sub_words n cs

-- The loop of `Sub` over `n` bits from `idx` on.
unfoldable pub sub_bits : BitArray → ℕ → ℕ → BitArray → BitArray
unfolding get_index_of set_index_of
sub_bits o zero idx c = c
sub_bits o (suc n) idx c =
    sub_bits o n (suc idx) (set_index_of c idx (get_index_of c idx && not (get_index_of o idx))).1

unfoldable pub bits_sub : Option BitArray → Option BitArray → Option (Option BitArray)
unfolding bits_and bits_not_of sub_words sub_bits
bits_sub none o = some none
bits_sub (some ba) none = some none
bits_sub (some ba) (some o) =
    if ltb o.bits ba.bits
    then (let last = length o.elems - 1 in
        let c = record ba { elems = sub_words last ba.elems } in
        if length o.elems == 0
        then some (some c)
        else some (some (sub_bits o (o.bits - last * 64) (last * 64) c)))
    else bits_and (some ba) (some (bits_not_of o))

unfoldable pub all_words : (ℕ → Bool) → List ℕ → Bool
all_words test [] = true
all_words test (e ∷ es) = test e && all_words test es

unfoldable pub bits_is_empty : Option BitArray → Bool
unfolding all_words
bits_is_empty none = true
bits_is_empty (some ba) = all_words (λ e. e == 0) ba.elems

-- `IsFull`; the slice of an array without words panics.
unfoldable pub bits_is_full : Option BitArray → Option Bool
unfolding all_words
bits_is_full none = some true
bits_is_full (some ba) =
    let last = length ba.elems - 1 in
    if length ba.elems == 0
    then none
    else if not (all_words (λ e. (max_word - e) == 0) (take last ba.elems))
    then some false
    else (let last_elem_bits = (ba.bits + 63) % 64 + 1 in
        let last_elem = get_or ba.elems last 0 in
        some (bit_and ((last_elem + 1) % (max_word + 1)) (2 ^ last_elem_bits - 1) == 0))

-- `Update`: `copy` stops at the shorter of the two.
unfoldable pub copy_words : List ℕ → List ℕ → List ℕ
copy_words [] os = []
copy_words (e ∷ es) [] = e ∷ es
copy_words (e ∷ es) (o ∷ os) = o ∷ copy_words es os

unfoldable pub bits_update : Option BitArray → Option BitArray → Option BitArray
unfolding copy_words
bits_update none o = none
bits_update (some ba) none = some ba
bits_update (some ba) (some o) = some (record ba { elems = copy_words ba.elems o.elems })
