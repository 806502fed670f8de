-- ===== src/Options/Plain.antt =====
-- The options of arm_simulator.c that open no file: the ports, and what is traced.
use uga_prog.Base.{
  ℕ, ◌≡◌, ◌∙◌, ap, refl, arith, Bool, true, false, ◌||◌, List, [], ◌∷◌, All, u16, bit_or, ◌==◌,
  if◌then◌else◌,
}
use uga_prog.Base.Bits.{bit, bit-or, bit-lt_two, bit_or-zero}
use uga_prog.Base.Outcome.{ok, modify}
use uga_prog.Text.{atoi}
use uga_prog.Debug.{Sign}
use uga_prog.Trace.{trace_add}
use uga_prog.Options.{Settings, set_option, set_options}

-- The flag that an option adds, or 0.
abbrev pub flag_of : ℕ → ℕ
flag_of opt =
    if opt == b'm'
    then 1
    else if opt == b'r'
    then 2
    else if opt == b's'
    then 4
    else if opt == b'p'
    then 8
    else 0

abbrev pub is_plain : ℕ → Bool
is_plain opt =
    ((opt == b'g') || (opt == b'i'))
    || (((opt == b'm') || (opt == b'r')) || ((opt == b's') || (opt == b'p')))

-- The port that the last option of a name gives, or the one before.
pub last_port : ℕ → List (ℕ × List ℕ) → ℕ → ℕ
last_port name [] before = before
last_port name ((opt, optarg) ∷ options) before =
    last_port name options (if opt == name then u16 (atoi optarg) else before)

-- Whether some option adds bit `k` to the flags.
pub asks_for : ℕ → List (ℕ × List ℕ) → Bool
asks_for k [] = false
asks_for k ((opt, optarg) ∷ options) = (bit (flag_of opt) k == 1) || asks_for k options

abbrev applied : ℕ → List ℕ → Settings → Settings
applied opt optarg s = record s {
  gdb_port = if opt == b'g' then u16 (atoi optarg) else s.gdb_port;
  irq_port = if opt == b'i' then u16 (atoi optarg) else s.irq_port;
  trace = record s.trace { trace_flags = bit_or s.trace.trace_flags (flag_of opt) };
}

module _ (opens : List ℕ → Bool) (strcmp : List ℕ → List ℕ → Sign) where
  set_option_plain :
      (opt : ℕ) (optarg : List ℕ) (s : Settings)
      → is_plain opt ≡ true
      → set_option opens strcmp opt optarg s ≡ ok (applied opt optarg s)
  unfolding set_option trace_add modify
  set_option_plain opt optarg s plain = ground (arith, bit_or-zero s.trace.trace_flags)

asks_step :
    (flags opt k : ℕ)
    → bit (bit_or flags (flag_of opt)) k ≡ (if bit (flag_of opt) k == 1 then 1 else bit flags k)
asks_step flags opt k =
    ground (arith, bit-or flags (flag_of opt) k, bit-lt_two flags k, bit-lt_two (flag_of opt) k)

if_or : (a b : Bool) (x : ℕ) → (if b then 1 else if a then 1 else x) ≡ (if a || b then 1 else x)
if_or true true x = refl
if_or true false x = refl
if_or false true x = refl
if_or false false x = refl

-- Options that set a port or add to what is traced are accepted, in any number and order, whatever stands
-- before them. Each port is what the last option for it gives, as atoi reads it and cut to 16 bits, or is
-- as before; a bit of the flags of the trace is set if an option asks for it, and as before if none does;
-- the debugged files and the trace's file are as before.
pub set_options-plain :
    (opens : List ℕ → Bool) (strcmp : List ℕ → List ℕ → Sign) (options : List (ℕ × List ℕ))
    (s : Settings) (k : ℕ)
    → All (λ o. is_plain o.0 ≡ true) options
    → (s' : Settings) × (set_options opens strcmp options s ≡ ok s')
      × (s'.gdb_port ≡ last_port b'g' options s.gdb_port)
      × (s'.irq_port ≡ last_port b'i' options s.irq_port)
      × (bit s'.trace.trace_flags k ≡ (if asks_for k options then 1 else bit s.trace.trace_flags k))
      × (s'.debugged ≡ s.debugged)
      × (s'.trace_file ≡ s.trace_file)
unfolding set_options last_port asks_for
set_options-plain opens strcmp [] s k plain = (s, refl, refl, refl, refl, refl, refl)
set_options-plain opens strcmp ((opt, optarg) ∷ options) s k (now, plain) =
    let (s', run, gdb, irq, flag, files, trace) =
      set_options-plain opens strcmp options (applied opt optarg s) k plain in
    (
      s',
      rw (set_option_plain opens strcmp opt optarg s now, set_options) run,
      gdb,
      irq,
      flag
          ∙ ap (λ t. if asks_for k options then 1 else t) (asks_step s.trace.trace_flags opt k)
          ∙ if_or (bit (flag_of opt) k == 1) (asks_for k options) (bit s.trace.trace_flags k),
      files,
      trace,
    )
