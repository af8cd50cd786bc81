-- ===== src/Telnet/Terminal.antt =====
-- src/protocols/telnet/codec.ts: the terminal's name.
use hackerpot.Common.{
  ℕ, zero, suc, ◌≤◌, ◌<◌, ◌≡◌, true, ◌&&◌, List, [], ◌∷◌, some, arith, length, take, keep, ◌==◌,
  Bool-cases, inl, inr, All,
}
use hackerpot.Telnet.{
  printable, trim_start, trim_end, nonempty_name, read_terminal_type, opt_terminal_type,
}

abbrev AllPrintable : List ℕ → Type 0
AllPrintable bs = All (λ b. printable b ≡ true) bs

keep-AllPrintable : (bs : List ℕ) → AllPrintable (keep printable bs)
keep-AllPrintable [] = tt
keep-AllPrintable (b ∷ bs) = elim (Bool-cases (printable b)) [
  | inl p ↦ rw p (p, keep-AllPrintable bs)
  | inr p ↦ rw p (keep-AllPrintable bs)
]

trim_start-AllPrintable : (bs : List ℕ) → AllPrintable bs → AllPrintable (trim_start bs)
unfolding trim_start
trim_start-AllPrintable [] h = tt
trim_start-AllPrintable (b ∷ bs) h = elim (Bool-cases (b == 32)) [
  | inl p ↦ rw p (trim_start-AllPrintable bs h.1)
  | inr p ↦ rw p h
]

trim_end-AllPrintable : (bs : List ℕ) → AllPrintable bs → AllPrintable (trim_end bs)
unfolding trim_end
trim_end-AllPrintable [] h = tt
trim_end-AllPrintable (b ∷ bs) h = elim (Bool-cases (b == 32 && length (trim_end bs) == 0)) [
  | inl p ↦ rw p tt
  | inr p ↦ rw p (h.0, trim_end-AllPrintable bs h.1)
]

take-AllPrintable : (n : ℕ) (bs : List ℕ) → AllPrintable bs → AllPrintable (take n bs)
take-AllPrintable zero bs h = tt
take-AllPrintable (suc n) [] h = tt
take-AllPrintable (suc n) (b ∷ bs) h = (h.0, take-AllPrintable n bs h.1)

length-take-le : (n : ℕ) (bs : List ℕ) → length (take n bs) ≤ n
length-take-le zero bs = omega arith
length-take-le (suc n) [] = omega arith
length-take-le (suc n) (b ∷ bs) = omega (arith, length-take-le n bs)

-- What may be recorded as a terminal's name.
abbrev pub IsName : List ℕ → Type 0
IsName name = (0 < length name) × (length name ≤ 64) × AllPrintable name

nonempty_name-IsName :
    (bs name : List ℕ) → AllPrintable bs → nonempty_name bs ≡ some name → IsName name
nonempty_name-IsName [] name h e = absurd (cc e)
nonempty_name-IsName (b ∷ bs) name h e =
    let same : b ∷ take 63 bs ≡ name = cc e in
    rw⁻¹ same (omega arith, omega (arith, length-take-le 63 bs), take-AllPrintable 64 (b ∷ bs) h)

-- Whatever the sub-negotiation held, a name read from it is not empty, has at most 64 characters, and
-- every one of them is printable ASCII.
pub read_terminal_type-IsName :
    (subneg name : List ℕ) → read_terminal_type subneg ≡ some name → IsName name
unfolding read_terminal_type
read_terminal_type-IsName [] name e = absurd (cc e)
read_terminal_type-IsName (option ∷ []) name e = absurd (cc e)
read_terminal_type-IsName (option ∷ is ∷ raw) name e =
    elim (Bool-cases (option == opt_terminal_type && is == 0)) [
      | inl p ↦
          nonempty_name-IsName (trim_end (trim_start (keep printable raw))) name
            (trim_end-AllPrintable _ (trim_start-AllPrintable _ (keep-AllPrintable raw)))
            (rw p at e)
      | inr p ↦ absurd (cc (rw p at e))
    ]
