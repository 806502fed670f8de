-- ===== src/Registers/Sharing.antt =====
-- Which registers the modes share, by the table of registers.c and by the ARM manual.
use uga_prog.Base.{
  ℕ, ◌+◌, ◌-◌, ◌*◌, ◌<◌, ◌≡◌, ◌∙◌, ap, refl, sym, arith, Bool, Bool-cases, true, false, ◌&&◌, ◌||◌,
  not, inl, inr, u32, ltb, leb, List, [], ◌∷◌, ◌==◌, if◌then◌else◌,
}
use uga_prog.Base.Outcome.{Outcome, ok, stop}
use uga_prog.Constants.{usr, fiq, irq, svc, abt, und, sys}
use uga_prog.Registers.{
  Registers, mode_row, entry_or_zero, matrice_mode, reg_at, reg_set, read_register, write_register,
}
use uga_prog.Registers.Banks.{put, matrice_mode-usr, all_below, all_below_sound}

abbrev pub has_name : ℕ → Bool
has_name m =
    ((m == usr) || (m == sys))
    || (((m == fiq) || (m == irq)) || (((m == svc) || (m == abt)) || (m == und)))

-- The registers of a mode: r0 to r15, the CPSR, and the SPSR where there is one.
unfoldable pub has_register : ℕ → ℕ → Bool
has_register m i = has_name m && (ltb i 17 || ((i == 17) && not ((m == usr) || (m == sys))))

-- The mode whose register it is, as the manual has it: FIQ has r8 to r14 of its own, the other exception
-- modes r13 and r14, all of them the SPSR, and the rest is the user's.
pub manual_owner : ℕ → ℕ → ℕ
manual_owner m i =
    if (m == usr) || (m == sys)
    then usr
    else if i == 17
    then m
    else if leb (if m == fiq then 8 else 13) i && ltb i 15
    then m
    else usr

-- As the code has it: the r13 of IRQ is that of UND, and IRQ has an r15 of its own.
pub code_owner : ℕ → ℕ → ℕ
code_owner m i =
    if (m == irq) && (i == 13)
    then und
    else if (m == irq) && (i == 15)
    then irq
    else manual_owner m i

-- Two numbers in two modes that are one register.
abbrev pub are_one : ℕ → ℕ → ℕ → ℕ → Bool
are_one m i m' j = (i == j) && (code_owner m i == code_owner m' j)

-- A register and its owner as one number.
key : ℕ → ℕ → ℕ
key m i = code_owner m i * 32 + i

-- Those of the 37 places.
held_above : List ℕ
held_above =
    (svc * 32 + 13)
    ∷ (svc * 32 + 14)
    ∷ (svc * 32 + 17)
    ∷ (abt * 32 + 13)
    ∷ (abt * 32 + 14)
    ∷ (abt * 32 + 17)
    ∷ (und * 32 + 13)
    ∷ (und * 32 + 14)
    ∷ (und * 32 + 17)
    ∷ (irq * 32 + 14)
    ∷ (irq * 32 + 15)
    ∷ (irq * 32 + 17)
    ∷ (fiq * 32 + 8)
    ∷ (fiq * 32 + 9)
    ∷ (fiq * 32 + 10)
    ∷ (fiq * 32 + 11)
    ∷ (fiq * 32 + 12)
    ∷ (fiq * 32 + 13)
    ∷ (fiq * 32 + 14)
    ∷ (fiq * 32 + 17)
    ∷ []

held : ℕ → ℕ
held n = if ltb n 17 then usr * 32 + n else entry_or_zero held_above (n - 17)

-- The place `n` of a register is one of the 37, holds it, and is its owner's.
is_right : ℕ → ℕ → ℕ → Bool
is_right m i n =
    (ltb n 37 && (held n == key m i))
    && elim (matrice_mode (code_owner m i) i) [ ok n' ↦ n' == n | stop e ↦ false ]

is_placed : ℕ → ℕ → Bool
is_placed m i =
    not (has_register m i) || elim (matrice_mode m i) [ ok n ↦ is_right m i n | stop e ↦ false ]

table_is_right : all_below 32 (λ m. all_below 18 (λ i. is_placed m i)) ≡ true
unfolding all_below is_placed is_right has_register held held_above key code_owner manual_owner
    matrice_mode mode_row entry_or_zero
table_is_right = refl

record Placed (m i : ℕ) : Type 0 where
  place : ℕ
  by_table : matrice_mode m i ≡ ok place
  inside : place < 37
  holds : held place ≡ key m i
  by_owner : matrice_mode (code_owner m i) i ≡ ok place

has_register-bounds : (m i : ℕ) → has_register m i ≡ true → (m < 32) × (i < 18)
unfolding has_register
has_register-bounds m i h = (ground arith, ground arith)

is_placed-at : (m i : ℕ) → has_register m i ≡ true → is_placed m i ≡ true
is_placed-at m i h =
    let (hm, hi) = has_register-bounds m i h in
    all_below_sound 18 (λ k. is_placed m k) i
      (all_below_sound 32 (λ l. all_below 18 (λ k. is_placed l k)) m table_is_right hm) hi

has_register-Placed : (m i : ℕ) → has_register m i ≡ true → Placed m i
unfolding is_placed is_right
has_register-Placed m i h = by_entry (matrice_mode m i) refl (is_placed-at m i h)
  where
    by_entry : (o : Outcome ℕ) → matrice_mode m i ≡ o → is_placed m i ≡ true → Placed m i
    by_entry (ok n) e t = record {
      place = n;
      by_table = e;
      inside = ground (arith, e, h);
      holds = ground (arith, e, h);
      by_owner = ground (arith, e, h);
    }
    by_entry (stop x) e t = ground (arith, e, h)

-- What a mode finds in its register.
unfoldable pub banked : Registers → ℕ → ℕ → Outcome ℕ
banked r m j = elim (matrice_mode m j) [ ok n ↦ reg_at r n | stop e ↦ stop e ]

place_of : Outcome ℕ → ℕ
place_of (ok n) = n
place_of (stop e) = 0

one_place :
    (m i m' j : ℕ)
    → i ≡ j
    → code_owner m i ≡ code_owner m' j
    → (a : Placed m i) (b : Placed m' j) → b.place ≡ a.place
unfolding place_of
one_place m i m' j same_number same_owner a b = ap place_of (
    sym b.by_owner
    ∙ ap (λ o. matrice_mode o j) (sym same_owner)
    ∙ ap (matrice_mode (code_owner m i)) (sym same_number)
    ∙ a.by_owner)

-- Two registers have one place exactly if they are one.
same_place :
    (m i m' j : ℕ)
    → has_register m i ≡ true
    → has_register m' j ≡ true
    → (a : Placed m i) (b : Placed m' j) → (b.place == a.place) ≡ are_one m i m' j
unfolding key
same_place m i m' j h h' a b =
    let (hm, hi) = has_register-bounds m i h in
    let (hm', hj) = has_register-bounds m' j h' in
    elim (Bool-cases (are_one m i m' j)) [
      | inl one ↦ let e = one_place m i m' j (ground arith) (ground arith) a b in ground arith
      | inr two ↦ elim (Bool-cases (b.place == a.place)) [
        | inl met ↦
            let e : b.place ≡ a.place = ground arith in
            let keys : code_owner m' j * 32 + j ≡ code_owner m i * 32 + i =
              sym b.holds ∙ ap held e ∙ a.holds in
            ground arith
        | inr apart ↦ rw (apart, two) refl
      ]
    ]

usr_is_its_own : (k : ℕ) → k < 17 → has_register usr k ≡ true
unfolding has_register
usr_is_its_own k h = ground arith

read_register-banked : (r : Registers) (k : ℕ) → k < 17 → read_register r k ≡ banked r usr k
unfolding read_register banked
read_register-banked r k h = rw (matrice_mode-usr k h, banked) refl

banked_after :
    (r : Registers) (i m' j value : ℕ)
    → has_register r.mode i ≡ true
    → has_register m' j ≡ true
    → (a : Placed r.mode i)
    → banked (put r a.place value) m' j
      ≡ (if are_one r.mode i m' j then ok (u32 value) else banked r m' j)
unfolding banked reg_at
banked_after r i m' j value h h' a =
    let b = has_register-Placed m' j h' in
    let same = same_place r.mode i m' j h h' a b in ground (arith, b.by_table, b.inside)

-- In each of the seven modes, a write to a register that the mode has succeeds, and what any of the modes
-- then finds in a register that it has is the low 32 bits of the value if the two are one register, and
-- what it found before if not. They are one if they have the same number and the same owner, the owner
-- being the manual's but for two registers of IRQ: its r13 is that of UND, and its r15 is its own. A read
-- of r0 to r15 or the CPSR finds what the user finds.
pub write_register-shared :
    (r : Registers) (i m' j k value : ℕ)
    → has_register r.mode i ≡ true
    → has_register m' j ≡ true
    → k < 17
    → (r' : Registers) × (write_register r i value ≡ ok r')
      × (banked r' m' j ≡ (if are_one r.mode i m' j then ok (u32 value) else banked r m' j))
      × (read_register r' k
          ≡ (if are_one r.mode i usr k then ok (u32 value) else read_register r k))
unfolding write_register reg_set
write_register-shared r i m' j k value h h' low =
    let a = has_register-Placed r.mode i h in
    let (hm, hi) = has_register-bounds r.mode i h in
    (
      put r a.place value,
      ground (arith, a.by_table, a.inside),
      banked_after r i m' j value h h' a,
      read_register-banked (put r a.place value) k low
          ∙ banked_after r i usr k value h (usr_is_its_own k low) a
          ∙ ap (λ t. if are_one r.mode i usr k then ok (u32 value) else t)
              (sym (read_register-banked r k low)),
    )
