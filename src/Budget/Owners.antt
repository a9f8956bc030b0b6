-- ===== src/Budget/Owners.antt =====
-- The set of owners of reserved closure requests, as a list.
use borealis_coder.Prelude.{
  ◌+◌, ◌≤◌, String, ◌≡◌, refl, true, false, not, ◌&&◌, some, List, [], ◌∷◌, str_eq, str_eq_iff,
  elem, distinct, length, arith,
}
use borealis_coder.Budget.{discard, others}

pub length-discard-le : (o : String) (cs : List String) → length (discard o cs) ≤ length cs
unfolding discard
length-discard-le o [] = omega arith
length-discard-le o (c ∷ cs) = ground (arith, length-discard-le o cs)

pub elem-discard :
    (i o : String) (cs : List String) → elem i (discard o cs) ≡ (not (str_eq o i) && elem i cs)
unfolding discard
elem-discard i o [] = ground arith
elem-discard i o (c ∷ cs) =
    ground (arith, elem-discard i o cs, str_eq_iff c o, str_eq_iff c i, str_eq_iff o i)

pub distinct-discard :
    (o : String) (cs : List String) → distinct cs ≡ true → distinct (discard o cs) ≡ true
unfolding discard
distinct-discard o [] h = refl
distinct-discard o (c ∷ cs) h = ground (arith, distinct-discard o cs, elem-discard c o cs)

discard-absent : (o : String) (cs : List String) → elem o cs ≡ false → discard o cs ≡ cs
unfolding discard
discard-absent o [] h = refl
discard-absent o (c ∷ cs) h = ground (arith, discard-absent o cs)

-- Among distinct owners, one leaves one place.
pub length-discard_of_elem :
    (o : String) (cs : List String)
    → distinct cs ≡ true
    → elem o cs ≡ true
    → length (discard o cs) + 1 ≡ length cs
unfolding discard
length-discard_of_elem o [] d h = cc
length-discard_of_elem o (c ∷ cs) d h =
    ground (arith, length-discard_of_elem o cs, discard-absent o cs, str_eq_iff c o)

pub length-discard-le-others :
    (o : String) (cs : List String) → length (discard o cs) ≤ length (others (some o) cs)
unfolding others
length-discard-le-others o cs = ground (arith, length-discard-le o cs)
