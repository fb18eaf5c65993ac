-- ===== src/Parser.antt =====
-- src/internal/rv_parser.c: the incremental parser, which decodes one section a step.
-- The reader and the arena are the ones that the parser points to; the diagnostics, whose only
-- content is texts, are left out, so a step on a damaged section that is tolerated leaves no mark.
-- Pointers are not NULL.
mod Examples
pub mod Steps
pub mod Sections
pub mod Total
pub mod Strict
pub mod Safe
pub mod Read
pub mod Count
use ray_vault.Base.{
  ℕ, zero, suc, ◌+◌, ◌^◌, Bool, true, false, not, ◌&&◌, ◌||◌, ◌==◌, ltb, if◌then◌else◌, Option,
  none, some, List, [], length, bit_and, u32,
}
use ray_vault.Arena.{Arena, Heap}
use ray_vault.Arena
use ray_vault.Decoding.{Result, ok, err, fault, Decoder}
use ray_vault.Records.{
  RouteRec, InstRec, CalibRec, WindowRec, WaveRec, MarkerRec, LinkRec, NoteRec, SummRec,
}
use ray_vault.Reader.{Reader, find_section, verify_section_crc, section_slice}
use ray_vault.Section.{
  decode_rout, decode_inst, decode_clbr, decode_wind, decode_mark, decode_link, decode_note,
  decode_summ,
}
use ray_vault.Section.Blobs.{SnamTable, decode_snam, decode_wave}

pub data Phase : Type 0 where
  at_init : Phase
  at_header : Phase
  at_dir : Phase
  at_snam : Phase
  at_rout : Phase
  at_inst : Phase
  at_clbr : Phase
  at_wind : Phase
  at_wave : Phase
  at_mark : Phase
  at_link : Phase
  at_note : Phase
  at_summ : Phase
  at_done : Phase
  at_error : Phase

pub record Parsed : Type 0 where
  pub snam : SnamTable
  pub rout : List RouteRec
  pub inst : List InstRec
  pub clbr : List CalibRec
  pub wind : List WindowRec
  pub wave : List WaveRec
  pub mark : List MarkerRec
  pub link : List LinkRec
  pub note : List NoteRec
  pub summ : SummRec
  pub has_summ : Bool
  pub phase : Phase
  pub sections_seen : ℕ
  pub feature_bits : ℕ

pub record Parser : Type 0 where
  pub reader : Reader
  pub arena : Arena
  pub result : Parsed
  pub flags : ℕ
  pub step_index : ℕ

abbrev pub no_names : SnamTable
no_names = record { entries = []; bucket = []; bucket_mask = 0; block = none }

abbrev pub no_summ : SummRec
no_summ = record {
  route_count = 0;
  window_count = 0;
  marker_count = 0;
  wave_count = 0;
  name_count = 0;
  package_crc = 0;
  payload_bytes = 0;
  flags = 0;
}

-- What `memset` leaves, in the phase `RV_PHASE_INIT`.
abbrev pub unparsed : Parsed
unparsed = record {
  snam = no_names;
  rout = [];
  inst = [];
  clbr = [];
  wind = [];
  wave = [];
  mark = [];
  link = [];
  note = [];
  summ = no_summ;
  has_summ = false;
  phase = at_init;
  sections_seen = 0;
  feature_bits = 0;
}

unfoldable pub init : Reader → Arena → ℕ → Parser
init r a flags = record { reader = r; arena = a; result = unparsed; flags = flags; step_index = 0 }

unfoldable pub reset : Parser → Parser
reset p = record p { arena = Arena.reset p.arena; result = unparsed; step_index = 0 }

abbrev pub enter : Phase → Parser → Parser
enter ph p = record p { result = record p.result { phase = ph } }

-- `flags & RV_OPEN_STRICT`.
abbrev pub is_strict : Parser → Bool
is_strict p = not (bit_and p.flags 2 == 0)

-- `!(flags & RV_OPEN_SKIP_SUMM) || tag != RV_TAG_SUMM`.
abbrev pub checks_crc : Parser → ℕ → Bool
checks_crc p tag = (bit_and p.flags 32 == 0) || not (tag == 0x4d4d5553)

-- A section that is decoded into `x`.
abbrev pub accept : Phase → Parsed → Parser → Parser
accept ph r p = record p {
  result = record r { sections_seen = u32 (r.sections_seen + 1); phase = ph };
}

module _ {A : Type 0} (store : A → Parsed → Parsed) (empty : A) (least : ℕ) where
  -- The decoder's outcome on the payload `sl`. A decoder that fails has emptied its table before,
  -- except on a payload of fewer than `least` bytes.
  pub after_decode : Phase → List ℕ → Parser → Result A × Arena → Result (Unit {0}) × Parser
  after_decode ph sl p (ok x, a') = (ok tt, accept ph (store x p.result) (record p { arena = a' }))
  after_decode ph sl p (err, a') =
      let cleared = if ltb (length sl) least then p.result else store empty p.result in
      (err, enter at_error (record p { arena = a'; result = cleared }))
  after_decode ph sl p (fault, a') = (fault, record p { arena = a' })

  unfoldable pub one_section :
      Heap → ℕ → Phase → (Heap → List ℕ → Decoder A) → Parser → Result (Unit {0}) × Parser
  unfolding after_decode
  one_section h tag ph decode p = elim (find_section p.reader tag 0) [
    | none ↦ if is_strict p then (err, enter at_error p) else (ok tt, enter ph p)
    | some e ↦
        if checks_crc p tag && not (verify_section_crc p.reader e) && is_strict p
        then (err, enter at_error p)
        else elim (section_slice p.reader e) [
          | none ↦ (err, enter at_error p)
          | some sl ↦ after_decode ph sl p (decode h sl p.arena)
        ]
  ]

abbrev pub after_summ : Parser → Result SummRec × Arena → Result (Unit {0}) × Parser
after_summ p (ok s, a') = (ok tt, accept at_summ (record p.result { summ = s; has_summ = true }) p)
after_summ p (err, a') = (err, p)
after_summ p (fault, a') = (fault, p)

unfoldable pub decode_summary : Parser → Result (Unit {0}) × Parser
decode_summary p = elim (find_section p.reader 0x4d4d5553 0) [
  | none ↦ (ok tt, enter at_summ p)
  | some e ↦ elim (section_slice p.reader e) [
    | none ↦ (err, p)
    | some sl ↦ after_summ p (decode_summ sl p.arena)
  ]
]

-- `past_k n` is k + n, to name the cases of the `switch` by their numbers.
pattern abbrev pub past_2 : ℕ → ℕ
past_2 n = suc (suc n)

pattern abbrev pub past_3 : ℕ → ℕ
past_3 n = suc (past_2 n)

pattern abbrev pub past_4 : ℕ → ℕ
past_4 n = suc (past_3 n)

pattern abbrev pub past_5 : ℕ → ℕ
past_5 n = suc (past_4 n)

pattern abbrev pub past_6 : ℕ → ℕ
past_6 n = suc (past_5 n)

pattern abbrev pub past_7 : ℕ → ℕ
past_7 n = suc (past_6 n)

pattern abbrev pub past_8 : ℕ → ℕ
past_8 n = suc (past_7 n)

pattern abbrev pub past_9 : ℕ → ℕ
past_9 n = suc (past_8 n)

pattern abbrev pub past_10 : ℕ → ℕ
past_10 n = suc (past_9 n)

pattern abbrev pub past_11 : ℕ → ℕ
past_11 n = suc (past_10 n)

-- The cases of `rv_parser_step` that go on.
pub act : Heap → ℕ → Parser → Result (Unit {0}) × Parser
act h zero p = (
  ok tt,
  enter at_header
      (record p { result = record p.result { feature_bits = p.reader.header.feature_bits } }),
)
act h (suc zero) p = (ok tt, enter at_dir p)
act h (past_2 zero) p =
    one_section (λ t r. record r { snam = t }) no_names 0 h 0x4d414e53 at_snam decode_snam p
act h (past_3 zero) p =
    one_section (λ t r. record r { rout = t }) [] 8 h 0x54554f52 at_rout decode_rout p
act h (past_4 zero) p =
    one_section (λ t r. record r { inst = t }) [] 8 h 0x54534e49 at_inst decode_inst p
act h (past_5 zero) p =
    one_section (λ t r. record r { clbr = t }) [] 8 h 0x52424c43 at_clbr decode_clbr p
act h (past_6 zero) p =
    one_section (λ t r. record r { wind = t }) [] 8 h 0x444e4957 at_wind decode_wind p
act h (past_7 zero) p =
    one_section (λ t r. record r { wave = t }) [] 0 h 0x45564157 at_wave decode_wave p
act h (past_8 zero) p =
    one_section (λ t r. record r { mark = t }) [] 8 h 0x4b52414d at_mark decode_mark p
act h (past_9 zero) p =
    one_section (λ t r. record r { link = t }) [] 8 h 0x4b4e494c at_link decode_link p
act h (past_10 zero) p =
    one_section (λ t r. record r { note = t }) [] 8 h 0x45544f4e at_note decode_note p
act h (past_11 zero) p = decode_summary p
act h _ p = (ok tt, p)

-- What `rv_parser_step` returns: 0, 1 and -1; `outside` is no return.
pub data Status : Type 0 where
  going : Status
  finished : Status
  failed : Status
  outside : Status

abbrev pub after_act : Result (Unit {0}) × Parser → Status × Parser
after_act (ok u, p) = (going, record p { step_index = p.step_index + 1 })
after_act (err, p) = (failed, p)
after_act (fault, p) = (outside, p)

pub step : Heap → Parser → Status × Parser
unfolding act
step h p =
    if ltb p.step_index 12
    then after_act (act h p.step_index p)
    else if p.step_index == 12
    then (finished, enter at_done p)
    else (finished, p)

-- `if (rc < 0) return -1; if (rc > 0) return 0;`
abbrev pub after_step :
    (Parser → Option (Status × Parser)) → Status × Parser → Option (Status × Parser)
after_step rest (going, p) = rest p
after_step rest (finished, p) = some (finished, p)
after_step rest (failed, p) = some (failed, p)
after_step rest (outside, p) = some (outside, p)

-- The loop of `rv_parser_run`, with fuel; `none` is fuel that ran out.
pub run_loop : ℕ → Heap → Parser → Option (Status × Parser)
run_loop zero h p = none
run_loop (suc fuel) h p = after_step (run_loop fuel h) (step h p)

-- Thirteen steps: twelve go on and the last finishes.
pub run : Heap → Parser → Option (Status × Parser)
unfolding run_loop
run h p = run_loop 13 h (record p { step_index = 0 })
