-- ===== src/Memory/RoundTrip.antt =====
-- A word written at address 0 and read back.
use uga_prog.Base.{
  ℕ, ◌+◌, ◌*◌, ◌/◌, ◌%◌, ◌^◌, ◌≤◌, ◌<◌, ◌≡◌, ◌↔◌, ◌∙◌, ap, refl, sym, Bool, true, false, some,
  arith, u32, if◌then◌else◌, update,
}
use mathlib.Core.Option.{some-injective}
use uga_prog.Memory.{Memory, memory_read_word, memory_write_word, word_byte}
use uga_prog.Memory.Words.{from_bytes, written, cut, write_word_loop_start, memory_read_word_start}

-- Adding 1, 2 and 3 carries into none of the bytes that are cut out after it.
pub NoCarry : ℕ → Type 0
NoCarry v = (v % 2 ^ 8 + 1 < 2 ^ 8) × (v % 2 ^ 16 + 2 < 2 ^ 16) × (v % 2 ^ 24 + 3 < 2 ^ 24)

-- The byte of weight `256 ^ j` that a write stores.
abbrev stored_byte : ℕ → ℕ → ℕ
stored_byte v j = (v + j) / 2 ^ (8 * j) % 2 ^ 8

stored_bytes_iff :
    (v : ℕ)
    → v < 2 ^ 32
    → (from_bytes (stored_byte v 3) (stored_byte v 2) (stored_byte v 1) (stored_byte v 0) ≡ v)
      ↔ NoCarry v
unfolding NoCarry
stored_bytes_iff v h = (λ e. (omega arith, omega arith, omega arith), λ c. omega arith)

cut_big :
    (mem : Memory) (v : ℕ)
    → v < 2 ^ 32
    → mem.be ≡ true
    → from_bytes (cut mem 0 (u32 v)) (cut mem 1 (u32 v)) (cut mem 2 (u32 v)) (cut mem 3 (u32 v))
      ≡ from_bytes (stored_byte v 3) (stored_byte v 2) (stored_byte v 1) (stored_byte v 0)
unfolding word_byte
cut_big mem v h big = rw big (omega arith)

cut_little :
    (mem : Memory) (v : ℕ)
    → v < 2 ^ 32
    → mem.be ≡ false
    → from_bytes (cut mem 3 (u32 v)) (cut mem 2 (u32 v)) (cut mem 1 (u32 v)) (cut mem 0 (u32 v))
      ≡ from_bytes (stored_byte v 3) (stored_byte v 2) (stored_byte v 1) (stored_byte v 0)
unfolding word_byte
cut_little mem v h little = rw little (omega arith)

update-fits :
    (f : ℕ → ℕ) (i v : ℕ) → ((j : ℕ) → f j < 256) → v < 256 → (j : ℕ) → update f i v j < 256
update-fits f i v fits h j = ground (arith, fits j)

written-fits :
    (mem : Memory) (a b c d : ℕ)
    → ((i : ℕ) → mem.bytes i < 256)
    → a < 256
    → b < 256
    → c < 256
    → d < 256
    → (i : ℕ) → (written mem a b c d).bytes i < 256
written-fits mem a b c d fits ha hb hc hd =
    update-fits _ 3 d (update-fits _ 2 c (update-fits _ 1 b (update-fits _ 0 a fits ha) hb) hc) hd

-- What a word write stores, as a number.
abbrev stored_word : ℕ → ℕ
stored_word v = from_bytes (stored_byte v 3) (stored_byte v 2) (stored_byte v 1) (stored_byte v 0)

either :
    (b : Bool) {x y z : ℕ} → (b ≡ true → x ≡ z) → (b ≡ false → y ≡ z) → (if b then x else y) ≡ z
either true h k = h refl
either false h k = k refl

read_stored :
    (mem : Memory) (v : ℕ)
    → 4 ≤ mem.taille
    → ((i : ℕ) → mem.bytes i < 256)
    → v < 2 ^ 32
    → memory_read_word
        (written mem
          (cut mem 0 (u32 v))
          (cut mem 1 (u32 v))
          (cut mem 2 (u32 v))
          (cut mem 3 (u32 v)))
        0
      ≡ some (stored_word v)
read_stored mem v room fits h =
    memory_read_word_start _ room (
      written-fits mem (cut mem 0 (u32 v)) (cut mem 1 (u32 v)) (cut mem 2 (u32 v))
        (cut mem 3 (u32 v)) fits (omega arith) (omega arith) (omega arith) (omega arith))
    ∙ ap some (either mem.be (cut_big mem v h) (cut_little mem v h))

-- Writing a word at address 0 of a memory of at least four bytes succeeds, and reading it back
-- then gives the value written exactly where the `+ i` of the write carries into no byte.
pub memory_write_word-memory_read_word :
    (mem : Memory) (v : ℕ)
    → 4 ≤ mem.taille
    → ((i : ℕ) → mem.bytes i < 256)
    → v < 2 ^ 32
    → (mem' : Memory) × (memory_write_word mem 0 v ≡ some mem')
      × ((memory_read_word mem' 0 ≡ some v) ↔ NoCarry v)
memory_write_word-memory_read_word mem v room fits h =
    let read_back = read_stored mem v room fits h in
    (
      written mem (cut mem 0 (u32 v)) (cut mem 1 (u32 v)) (cut mem 2 (u32 v)) (cut mem 3 (u32 v)),
      write_word_loop_start mem v room,
      (
        λ e. (stored_bytes_iff v h).0 (some-injective _ _ (sym read_back ∙ e)),
        λ c. read_back ∙ ap some ((stored_bytes_iff v h).1 c),
      ),
    )
