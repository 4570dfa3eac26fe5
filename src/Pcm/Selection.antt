-- ===== src/Pcm/Selection.antt =====
-- What ViosndFindStreamPair selects, described without its loops.
use viosnd.Base.{
  ℕ, zero, suc, ◌+◌, ◌≤◌, ◌<◌, ◌≡◌, refl, ◌∙◌, Bool, true, false, ◌&&◌, List, [], ◌∷◌, Option, none,
  some, ltb, ◌==◌, if◌then◌else◌, max_ulong, length, arith, Bool-cases, inl, inr,
}
use viosnd.Status.{NtStatus}
use viosnd.Protocol.{PcmInfo, d_output, d_input}
use viosnd.Pcm.{
  StreamPair, Scan, supports_default_format, note_fallback, assign_stream, visit, scan_streams,
  use_fallbacks, spare_capture, select_spare, pair_status, finish_pair, find_stream_pair,
}

abbrev pub is_some : Option ℕ → Bool
is_some none = false
is_some (some i) = true

abbrev pub value_or_zero : Option ℕ → ℕ
value_or_zero none = 0
value_or_zero (some i) = i

abbrev pub or_else : Option ℕ → Option ℕ → Option ℕ
or_else none o = o
or_else (some i) o = some i

-- The first index, counted from `i`, whose entry passes the test.
abbrev pub first_index : (PcmInfo → Bool) → List PcmInfo → ℕ → Option ℕ
first_index test [] i = none
first_index test (info ∷ rest) i = if test info then some i else first_index test rest (i + 1)

abbrev pub flows : ℕ → PcmInfo → Bool
flows direction info = info.direction == direction

abbrev pub flows_by_default : ℕ → PcmInfo → Bool
flows_by_default direction info = supports_default_format info && flows direction info

-- The first stream of the direction that supports the default format, else the first of it.
abbrev pub choose : ℕ → List PcmInfo → Option ℕ
choose direction infos =
    or_else (first_index (flows_by_default direction) infos 0)
      (first_index (flows direction) infos 0)

-- Of two or more streams, the first one that is not the render stream.
abbrev pub spare : ℕ → Option ℕ → Option ℕ
spare count render =
    if ltb 1 count
    then (if is_some render && value_or_zero render == 0 then some 1 else some 0)
    else none

abbrev pub pair_of : Option ℕ → Option ℕ → StreamPair
pair_of render capture = record {
  render_stream_id = value_or_zero render;
  capture_stream_id = value_or_zero capture;
  has_render = is_some render;
  has_capture = is_some capture;
}

abbrev pub selection_of : Option ℕ → Option ℕ → StreamPair × NtStatus
selection_of render capture = (pair_of render capture, pair_status (pair_of render capture))

abbrev pub selection : List PcmInfo → StreamPair × NtStatus
selection infos =
    let render = choose d_output infos in
    selection_of render (or_else (choose d_input infos) (spare (length infos) render))

-- A fallback variable: MAXULONG stands for no stream.
abbrev or_max : Option ℕ → ℕ
or_max none = max_ulong
or_max (some i) = i

abbrev IsIndex : Option ℕ → Type 0
IsIndex none = Unit {0}
IsIndex (some i) = i < max_ulong

abbrev scan_of : Option ℕ → Option ℕ → Option ℕ → Option ℕ → Scan
scan_of r c fr fc = record {
  pair = pair_of r c;
  fallback_render = or_max fr;
  fallback_capture = or_max fc;
}

abbrev hit : Bool → ℕ → Option ℕ
hit true i = some i
hit false i = none

-- What one entry adds to an option that holds the first hit so far.
abbrev meet : Option ℕ → Bool → ℕ → Option ℕ
meet o b i = or_else o (hit b i)

note_fallback_lem :
    (i : ℕ) (info : PcmInfo) (r c fr fc : Option ℕ)
    → IsIndex fr
    → IsIndex fc
    → note_fallback i info (scan_of r c fr fc)
      ≡ scan_of r c (meet fr (flows d_output info) i) (meet fc (flows d_input info) i)
unfolding note_fallback
note_fallback_lem i info r c none none h k = ground arith
note_fallback_lem i info r c none (some b) h k = ground arith
note_fallback_lem i info r c (some a) none h k = ground arith
note_fallback_lem i info r c (some a) (some b) h k = ground arith

assign_stream_lem :
    (i : ℕ) (info : PcmInfo) (r c : Option ℕ)
    → assign_stream i info (pair_of r c)
      ≡ pair_of (meet r (flows d_output info) i) (meet c (flows d_input info) i)
unfolding assign_stream
assign_stream_lem i info none none = ground arith
assign_stream_lem i info none (some b) = ground arith
assign_stream_lem i info (some a) none = ground arith
assign_stream_lem i info (some a) (some b) = ground arith

-- What the scan and the code after it return, from the first hits of the whole list.
abbrev outcome : ℕ → Option ℕ → Option ℕ → Option ℕ → Option ℕ → StreamPair × NtStatus
outcome count r c fr fc =
    let render = or_else r fr in selection_of render (or_else (or_else c fc) (spare count render))

select_spare_lem :
    (count : ℕ) (r : Option ℕ) → select_spare count (pair_of r none) ≡ pair_of r (spare count r)
unfolding spare_capture
select_spare_lem zero r = refl
select_spare_lem (suc zero) r = refl
select_spare_lem (suc (suc n)) none = ground arith
select_spare_lem (suc (suc n)) (some a) = ground arith

use_fallbacks_lem :
    (r c fr fc : Option ℕ)
    → IsIndex fr
    → IsIndex fc
    → use_fallbacks (scan_of r c fr fc) ≡ pair_of (or_else r fr) (or_else c fc)
unfolding use_fallbacks
use_fallbacks_lem none none none none h k = ground arith
use_fallbacks_lem _ _ _ _ h k = ground arith

meet_first :
    (test : PcmInfo → Bool) (o : Option ℕ) (info : PcmInfo) (rest : List PcmInfo) (i : ℕ)
    → or_else (meet o (test info) i) (first_index test rest (i + 1))
      ≡ or_else o (first_index test (info ∷ rest) i)
meet_first test none info rest i = ground arith
meet_first test (some a) info rest i = ground arith

IsIndex-meet : (o : Option ℕ) (b : Bool) (i : ℕ) → i < max_ulong → IsIndex o → IsIndex (meet o b i)
IsIndex-meet none true i h k = h
IsIndex-meet none false i h k = tt
IsIndex-meet (some a) b i h k = k

visit_lem :
    (i : ℕ) (info : PcmInfo) (r c fr fc : Option ℕ)
    → IsIndex fr
    → IsIndex fc
    → visit i info (scan_of r c fr fc)
      ≡ scan_of
          (meet r (flows_by_default d_output info) i)
          (meet c (flows_by_default d_input info) i)
          (meet fr (flows d_output info) i)
          (meet fc (flows d_input info) i)
unfolding visit
visit_lem i info r c fr fc h k = elim (Bool-cases (supports_default_format info)) [
  | inl yes' ↦ rw (note_fallback_lem i info r c fr fc h k, yes', assign_stream_lem i info r c)
  | inr no' ↦ rw (note_fallback_lem i info r c fr fc h k, no') (meet_none r c)
]
  where
    meet_none :
        (r c : Option ℕ)
        → scan_of r c (meet fr (flows d_output info) i) (meet fc (flows d_input info) i)
          ≡ scan_of
              (meet r false i)
              (meet c false i)
              (meet fr (flows d_output info) i)
              (meet fc (flows d_input info) i)
    meet_none none none = refl
    meet_none none (some b) = refl
    meet_none (some a) none = refl
    meet_none (some a) (some b) = refl

-- The early return gives what the rest of the scan would give.
finish_early :
    (count : ℕ) (t : Bool) (r c fr fc o p fo fp : Option ℕ) (later : Bool × Scan)
    → finish_pair count later
      ≡ outcome count (or_else r o) (or_else c p) (or_else fr fo) (or_else fc fp)
    → finish_pair count (if t && (is_some r && is_some c) then (true, scan_of r c fr fc) else later)
      ≡ outcome count (or_else r o) (or_else c p) (or_else fr fo) (or_else fc fp)
finish_early count false r c fr fc o p fo fp later h = h
finish_early count true none c fr fc o p fo fp later h = h
finish_early count true (some a) none fr fc o p fo fp later h = h
finish_early count true (some a) (some b) fr fc o p fo fp later h = refl

or_else-none : (o : Option ℕ) → or_else o none ≡ o
or_else-none none = refl
or_else-none (some i) = refl

select_spare_any :
    (count : ℕ) (x y : Option ℕ)
    → select_spare count (pair_of x y) ≡ pair_of x (or_else y (spare count x))
select_spare_any count x none = select_spare_lem count x
select_spare_any count x (some b) = refl

scan_streams_lem :
    (count : ℕ) (rest : List PcmInfo) (i : ℕ) (r c fr fc : Option ℕ)
    → i + length rest ≤ max_ulong
    → IsIndex fr
    → IsIndex fc
    → finish_pair count (scan_streams rest i (scan_of r c fr fc))
      ≡ outcome count
          (or_else r (first_index (flows_by_default d_output) rest i))
          (or_else c (first_index (flows_by_default d_input) rest i))
          (or_else fr (first_index (flows d_output) rest i))
          (or_else fc (first_index (flows d_input) rest i))
unfolding scan_streams
scan_streams_lem count [] i r c fr fc b h k = rw (
  use_fallbacks_lem r c fr fc h k,
  select_spare_any count (or_else r fr) (or_else c fc),
  or_else-none r,
  or_else-none c,
  or_else-none fr,
  or_else-none fc,
)
scan_streams_lem count (info ∷ rest) i r c fr fc b h k = rw (visit_lem i info r c fr fc h k) (
    finish_early count (supports_default_format info) r' c' fr' fc'
      (first_index (flows_by_default d_output) rest (i + 1))
      (first_index (flows_by_default d_input) rest (i + 1))
      (first_index (flows d_output) rest (i + 1)) (first_index (flows d_input) rest (i + 1))
      (scan_streams rest (i + 1) (scan_of r' c' fr' fc'))
      (scan_streams_lem count rest (i + 1) r' c' fr' fc' (omega arith)
        (IsIndex-meet fr _ i (omega arith) h) (IsIndex-meet fc _ i (omega arith) k))
    ∙ λ j.
        outcome count (meet_first (flows_by_default d_output) r info rest i j)
          (meet_first (flows_by_default d_input) c info rest i j)
          (meet_first (flows d_output) fr info rest i j)
          (meet_first (flows d_input) fc info rest i j))
  where
    r' : Option ℕ
    r' = meet r (flows_by_default d_output info) i

    c' : Option ℕ
    c' = meet c (flows_by_default d_input info) i

    fr' : Option ℕ
    fr' = meet fr (flows d_output info) i

    fc' : Option ℕ
    fc' = meet fc (flows d_input info) i

-- ViosndFindStreamPair selects, for each direction, the first stream that supports the default
-- format, else the first stream of that direction; without an input stream, capture gets the first
-- stream other than the render stream if there are two or more; an absent stream has id 0 and its
-- flag clear; and the status is STATUS_NOT_FOUND exactly when both flags are clear. The count of
-- streams is at most MAXULONG, as a ULONG is.
pub find_stream_pair-eq-selection :
    (infos : List PcmInfo) → length infos ≤ max_ulong → find_stream_pair infos ≡ selection infos
unfolding find_stream_pair
find_stream_pair-eq-selection infos b =
    scan_streams_lem (length infos) infos 0 none none none none (omega arith) tt tt ∙ regroup
  where
    regroup :
        outcome
          (length infos)
          (first_index (flows_by_default d_output) infos 0)
          (first_index (flows_by_default d_input) infos 0)
          (first_index (flows d_output) infos 0)
          (first_index (flows d_input) infos 0)
        ≡ selection infos
    regroup = refl
