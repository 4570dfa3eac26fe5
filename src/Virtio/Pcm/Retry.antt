-- ===== src/Virtio/Pcm/Retry.antt =====
-- What the status of a PCM command and of the stream query says of the device's responses.
use viosnd.Base.{
  ◌≤◌, ◌<◌, ◌≢◌, ◌↔◌, ◌++◌, take, replicate, ℕ, zero, suc, ◌+◌, ◌*◌, ◌≡◌, refl, ap, ◌⊎◌, inl, inr,
  true, false, List, [], ◌∷◌, Option, none, some, arith, ltb, ◌==◌, ◌&&◌, Bool-cases, Option-cases,
  min,
}
use viosnd.Status.{NtStatus, nt_success, status_success, status_not_supported}
use viosnd.Protocol.{PcmInfo, s_ok, r_pcm_info}
use viosnd.Pcm.{StreamPair, find_stream_pair}
use viosnd.Virtio.Host.{Host, Request, Response, query_info}
use viosnd.Virtio.Device.{Device}
use viosnd.Virtio.Control.{control_command}
use viosnd.Virtio.Pcm.{
  is_pcm_status_command, request_code, code_of, retry_delay, final_status, entries, infos_of,
  is_empty_response, take_response, zero_info, pcm_info_looks_empty, attempt_status,
  control_status_command_ex, query_attempts, query_pcm_streams, pcm_info_retry_count,
  max_pcm_streams, control_status_retry_count,
}

-- The response codes for which a command is taken to have succeeded.
abbrev pub IsAccepted : ℕ → ℕ → Type 0
IsAccepted command code = (code ≡ s_ok) ⊎ (code ≡ 0) × (is_pcm_status_command command ≡ true)

IsAccepted-of_final :
    (command code : ℕ) → nt_success (final_status command code) ≡ true → IsAccepted command code
unfolding final_status
IsAccepted-of_final command code e = ground arith

-- The first `n` entries of a response, with entries of zeros after its end.
abbrev pub padded : ℕ → List PcmInfo → List PcmInfo
padded n infos = take n (infos ++ replicate n zero_info)

zeros : (n m : ℕ) → n ≤ m → entries n [] ≡ take n (replicate m zero_info)
unfolding entries
zeros zero m below = refl
zeros (suc n) zero below = absurd (omega (arith, below))
zeros (suc n) (suc m) below = ap (λ l. zero_info ∷ l) (zeros n m (omega (arith, below)))

entries-take :
    (n m : ℕ) (infos : List PcmInfo)
    → n ≤ m
    → entries n infos ≡ take n (infos ++ replicate m zero_info)
unfolding entries
entries-take n m [] below = zeros n m below
entries-take zero m (i ∷ rest) below = refl
entries-take (suc n) m (i ∷ rest) below =
    ap (λ l. i ∷ l) (entries-take n m rest (omega (arith, below)))

-- What a command sends back: its status, and a response if there is one
abbrev pub Answer : Type 0
Answer = NtStatus × Option Response

-- A response to the stream query whose code was not written, or is OK with entries of zeros only
abbrev pub IsBlank : ℕ → Answer → Type 0
IsBlank count (status, response) =
    (code_of response ≡ 0)
    ⊎ ((code_of response ≡ s_ok) × (pcm_info_looks_empty (padded count (infos_of response)) ≡ true))

-- What an answer makes of the query for `count` streams: its failure is given on, a response with a
-- code other than OK is refused, and the entries of any other are what the pair is selected from.
pub record Decides (count : ℕ) (answer : Answer) (result : NtStatus × Option StreamPair)
    : Type 0 where
  pub failed : nt_success answer.0 ≡ false → result ≡ (answer.0, none)
  pub refused :
      nt_success answer.0 ≡ true → code_of answer.1 ≢ s_ok → result ≡ (status_not_supported, none)
  pub taken :
      nt_success answer.0 ≡ true
      → code_of answer.1 ≡ s_ok
      → let (pair, status) = find_stream_pair (padded count (infos_of answer.1)) in
        result ≡ (status, some pair)

take-Decides :
    (count : ℕ) (answer : Answer)
    → nt_success answer.0 ≡ true
    → Decides count answer (take_response (code_of answer.1) (entries count (infos_of answer.1)))
unfolding take_response
take-Decides count answer sent = record {
  failed = λ bad. absurd (ground (arith, sent, bad));
  refused = λ _ bad.
      let no : (code_of answer.1 == s_ok) ≡ false = ground (arith, bad) in
      rw (no, take_response) refl;
  taken = λ _ ok.
      let yes : (code_of answer.1 == s_ok) ≡ true = ground (arith, ok) in
      rw (yes, take_response)
        (ap (λ l. let (pair, status) = find_stream_pair l in (status, some pair))
          (entries-take count count (infos_of answer.1) (omega arith)));
}

failed-Decides :
    (count : ℕ) (answer : Answer)
    → nt_success answer.0 ≡ false
    → Decides count answer (answer.0, none)
failed-Decides count answer bad = record {
  failed = λ _. refl;
  refused = λ good _. absurd (ground (arith, good, bad));
  taken = λ good _. absurd (ground (arith, good, bad));
}

-- The test for an empty response
is_empty_response_iff :
    (count : ℕ) (answer : Answer)
    → (is_empty_response (code_of answer.1) (entries count (infos_of answer.1)) ≡ true)
      ↔ IsBlank count answer
unfolding is_empty_response
is_empty_response_iff count answer =
    let same =
      ap pcm_info_looks_empty (entries-take count count (infos_of answer.1) (omega arith)) in
    (λ e. ground (arith, e, same), λ b. ground (arith, b, same))

-- What holds of the first, and of the next of all others below a bound
from_first :
    (P : ℕ → Type 0) (n : ℕ) → P 0 → ((j : ℕ) → j < n → P (suc j)) → (j : ℕ) → j < suc n → P j
from_first P n first rest zero below = first
from_first P n first rest (suc j) below = rest j (omega (arith, below))

module _ (h : Host) where
  open h use {World, delay_us, pool_alloc}

  attempt-IsAccepted :
      (rounds : ℕ) (request : Request) (attempt previous : ℕ) (d : Device) (w : World)
      → let ((status, code), d', w') = attempt_status h rounds request attempt previous d w in
        nt_success status ≡ true → IsAccepted (request_code request) code
  unfolding attempt_status
  attempt-IsAccepted zero request attempt previous d w =
      IsAccepted-of_final (request_code request) previous
  attempt-IsAccepted (suc rounds) request attempt previous d w =
      let ((status, response), d', w') = control_command h request 4 d w in
      let code = code_of response in
      elim (Bool-cases (nt_success status)) [
        | inr failed ↦ rw failed (λ ok. absurd (ground arith))
        | inl sent ↦
            rw sent (elim (Option-cases (retry_delay (request_code request) attempt code)) [
              | inl e ↦ rw (e, attempt_status) (IsAccepted-of_final (request_code request) code)
              | inr (ms, e) ↦
                  rw (e, attempt_status)
                    (attempt-IsAccepted rounds request (attempt + 1) code d'
                      (delay_us (ms * 1000) w'))
            ])
      ]

  -- ViosndControlStatusCommandEx succeeds only if the last response that it read, the one that it
  -- hands out as *ResponseCode, is OK, or is zero for one of the five PCM status commands.
  pub control_status_command_ex-IsAccepted :
      (request : Request) (d : Device) (w : World)
      → nt_success (control_status_command_ex h request d w).0.0 ≡ true
      → IsAccepted (request_code request) (control_status_command_ex h request d w).0.1
  unfolding control_status_command_ex
  control_status_command_ex-IsAccepted request d w =
      attempt-IsAccepted control_status_retry_count request 0 0 d w

  -- The query for `count` streams
  abbrev pub ask : ℕ → Device → World → Answer × Device × World
  ask count d w = control_command h (query_info r_pcm_info 0 count 32) (4 + count * 32) d w

  -- The answer to the query's attempt number `n`, where every attempt is followed by a wait of 100 ms.
  pub answer_at : ℕ → ℕ → Device → World → Answer
  answer_at zero count d w = (ask count d w).0
  answer_at (suc n) count d w =
      let (answer, d', w') = ask count d w in answer_at n count d' (delay_us 100000 w')

  -- One of the attempts up to number `last` gives the result: all before it were sent and answered
  -- with a blank response, and it was not, unless it is the last one.
  pub record IsQueried (count last : ℕ) (d : Device) (w : World)
      (result : NtStatus × Option StreamPair) : Type 0 where
    pub attempt : ℕ
    pub early : attempt ≤ last
    pub sent : (j : ℕ) → j < attempt → nt_success (answer_at j count d w).0 ≡ true
    pub blank : (j : ℕ) → j < attempt → IsBlank count (answer_at j count d w)
    pub fresh :
        nt_success (answer_at attempt count d w).0 ≡ true
        → IsBlank count (answer_at attempt count d w)
        → attempt ≡ last
    pub decides : Decides count (answer_at attempt count d w) result

  answered_now :
      (count last : ℕ) (d : Device) (w : World) (result : NtStatus × Option StreamPair)
      → (nt_success (ask count d w).0.0 ≡ true → IsBlank count (ask count d w).0 → 0 ≡ last)
      → Decides count (ask count d w).0 result
      → IsQueried count last d w result
  unfolding answer_at
  answered_now count last d w result fresh decides = record {
    attempt = 0;
    early = omega arith;
    sent = λ j below. absurd (omega (arith, below));
    blank = λ j below. absurd (omega (arith, below));
    fresh = fresh;
    decides = decides;
  }

  answered_later :
      (count last : ℕ) (d : Device) (w : World) (result : NtStatus × Option StreamPair)
      → nt_success (ask count d w).0.0 ≡ true
      → IsBlank count (ask count d w).0
      → (let (answer, d', w') = ask count d w in
          IsQueried count last d' (delay_us 100000 w') result)
      → IsQueried count (suc last) d w result
  unfolding answer_at
  answered_later count last d w result good empty q = record {
    attempt = suc q.attempt;
    early = omega (arith, q.early);
    sent = from_first (λ j. nt_success (answer_at j count d w).0 ≡ true) q.attempt good q.sent;
    blank = from_first (λ j. IsBlank count (answer_at j count d w)) q.attempt empty q.blank;
    fresh = λ s b. ap suc (q.fresh s b);
    decides = q.decides;
  }

  query-IsQueried :
      (rounds count attempt : ℕ) (previous : NtStatus) (d : Device) (w : World)
      → attempt + suc rounds ≡ pcm_info_retry_count
      → IsQueried count rounds d w (query_attempts h (suc rounds) count attempt previous d w).0
  unfolding query_attempts
  query-IsQueried zero count attempt previous d w total =
      let (answer, d', w') = ask count d w in
      let infos = entries count (infos_of answer.1) in
      let empty = is_empty_response (code_of answer.1) infos in
      let last : (empty && ltb (attempt + 1) pcm_info_retry_count) ≡ false = ground arith in
      elim (Bool-cases (nt_success answer.0)) [
        | inr bad ↦
            rw (bad, query_attempts)
              (answered_now count 0 d w _ (λ _ _. refl) (failed-Decides count answer bad))
        | inl sent ↦ rw sent (
            rw (last, query_attempts)
              (answered_now count 0 d w _ (λ _ _. refl) (take-Decides count answer sent)))
      ]
  query-IsQueried (suc rounds) count attempt previous d w total =
      let (answer, d', w') = ask count d w in
      let infos = entries count (infos_of answer.1) in
      let empty = is_empty_response (code_of answer.1) infos in
      let early : ltb (attempt + 1) pcm_info_retry_count ≡ true = ground (arith, total) in
      let (to, from) = is_empty_response_iff count answer in
      elim (Bool-cases (nt_success answer.0)) [
        | inr bad ↦
            rw (bad, query_attempts)
              (answered_now count (suc rounds) d w _ (λ good _. absurd (ground (arith, good, bad)))
                (failed-Decides count answer bad))
        | inl sent ↦ rw sent (elim (Bool-cases (empty && ltb (attempt + 1) pcm_info_retry_count)) [
          | inl again ↦
              rw (again, query_attempts)
                (answered_later count rounds d w _ sent (to (ground (arith, again))) (
                  query-IsQueried rounds count (attempt + 1) answer.0 d' (delay_us 100000 w')
                    (omega arith)))
          | inr enough ↦
              rw (enough, query_attempts)
                (answered_now count (suc rounds) d w _
                  (λ _ b. absurd (ground (arith, enough, early, from b)))
                  (take-Decides count answer sent))
        ])
      ]

  -- Where the device has streams and there is memory for a response, ViosndQueryPcmStreams asks for
  -- the first 64 of them at most eight times, and again only after a response whose code was not
  -- written or that has only entries of zeros. The last answer decides: where the command failed, its
  -- status is given without a pair; where the code is not OK, the query is not supported; and
  -- where it is OK, the pair and the status are what ViosndFindStreamPair gives for the entries of
  -- that response, with zeros after its end.
  pub query_pcm_streams-IsQueried :
      (address : ℕ) (d : Device) (w : World)
      → let count = min d.config_streams max_pcm_streams in
        count ≢ 0
        → (pool_alloc (4 + count * 32) w).0 ≡ some address
        → IsQueried count 7 d (pool_alloc (4 + count * 32) w).1 (query_pcm_streams h d w).0
  unfolding query_pcm_streams
  query_pcm_streams-IsQueried address d w streams given =
      let count = min d.config_streams max_pcm_streams in
      let not_idle : (count == 0) ≡ false = ground (arith, streams) in
      rw not_idle (
        rw (given, query_pcm_streams)
          (query-IsQueried 7 count 0 status_success d (pool_alloc (4 + count * 32) w).1 refl))
