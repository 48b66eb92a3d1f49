-- ===== src/Snmp/Agent/Refine.antt =====
-- About `handle_request` of lib/snmp/snmp_agent.c.
use microcontroller_devices.Prelude.{ℕ, ◌^◌, ◌≤◌, ◌<◌}
use microcontroller_devices.Prelude.{leb, ◌==◌, if◌then◌else◌, leb→le}
use microcontroller_devices.Prelude.{◌≡◌, refl, sym, ◌∙◌, arith, inl, inr, ◌↔◌}
use microcontroller_devices.Prelude.{Bool, true, false, Bool-cases, Option-cases}
use microcontroller_devices.Prelude.{none, some, List, []}
use microcontroller_devices.Prelude.{length}
use mathlib.Core.Path.{subst}
use mathlib.Core.Option.{none-ne-some}
use microcontroller_devices.Snmp.Ber.Encoder.{put_bytes, ber_enc_init, ber_enc_length}
use microcontroller_devices.Snmp.Mib.{Mib, MibSource}
use microcontroller_devices.Snmp.Agent.{
  AgentConfig, ParsedReq, RespVb, encode_response, parse_request, plan_get, plan_getnext,
  snmp_pdu_get, snmp_pdu_getnext, snmp_pdu_set, snmp_pdu_getbulk, err_none, err_too_big,
  err_gen_err, err_not_writable, snmp_tx_buf,
}
use microcontroller_devices.Snmp.Agent.Bulk.{plan_getbulk}
use microcontroller_devices.Snmp.Agent.Parse.{IsAccepted, parse_request-IsAccepted}
use microcontroller_devices.Snmp.Agent.Spec.{response_form}
use microcontroller_devices.Snmp.Agent.Encode.{IsReady, encode_response-eq}
use microcontroller_devices.Snmp.Agent.Handler.{
  sent, send_planned, send_error, respond, handle_request,
}
use microcontroller_devices.Snmp.Agent.Answer.{
  datagram, fits, too_long, error_answer, planned_answer, answer, error_answer_fits,
}

-- What the transmit buffer holds when the C function returns its length.
abbrev pub Sends : (ℕ → ℕ) × ℕ → List ℕ → Type 0
Sends out bs = (out.1 ≡ length bs) × (datagram out ≡ bs)

module _ (m : Mib) (v : MibSource) (ready : IsReady m v) (r : ParsedReq)
    (id : r.request_id < 2 ^ 32) (small : length r.community ≤ 1400) where
  send_error-Sends :
      (tx : ℕ → ℕ) (status index : ℕ)
      → status < 2 ^ 32
      → index < 2 ^ 32
      → Sends (send_error m v tx r status index) (error_answer m v r status index)
  unfolding send_error
  send_error-Sends tx status index hs hi =
      subst (λ e. Sends (sent e) (error_answer m v r status index))
        (sym (
          encode_response-eq m v (ber_enc_init tx snmp_tx_buf) r.request_id status index r.community
            [] ready id hs hi))
        (fits tx (error_answer m v r status index) (error_answer_fits m v r status index small).1)

  abbrev full : List RespVb → List ℕ
  full vbs = response_form m v r.request_id err_none 0 r.community vbs

  full_pos : (vbs : List RespVb) → 0 < length (full vbs)
  unfolding response_form
  full_pos vbs = omega arith

  send_planned-Sends :
      (tx : ℕ → ℕ) (vbs : List RespVb)
      → Sends (send_planned m v tx r vbs) (planned_answer m v r vbs)
  unfolding send_planned send_error
  send_planned-Sends tx vbs = elim (Bool-cases (leb (length (full vbs)) snmp_tx_buf)) [
    | inl yes_fits ↦
        rw (yes_fits, encoded, nonzero yes_fits) (fits tx (full vbs) (leb→le _ _ yes_fits))
    | inr too_big ↦
        rw (too_big, encoded, none_sent too_big)
          (send_error-Sends (put_bytes (ber_enc_init tx snmp_tx_buf) (full vbs)).base err_too_big 0
            (omega arith) (omega arith))
  ]
    where
      encoded :
          encode_response m v (ber_enc_init tx snmp_tx_buf) r.request_id err_none 0 r.community vbs
          ≡ put_bytes (ber_enc_init tx snmp_tx_buf) (full vbs)
      encoded =
          encode_response-eq m v (ber_enc_init tx snmp_tx_buf) r.request_id err_none 0 r.community
            vbs ready id (omega arith) (omega arith)

      sized :
          leb (length (full vbs)) snmp_tx_buf ≡ true
          → ber_enc_length (put_bytes (ber_enc_init tx snmp_tx_buf) (full vbs)) ≡ length (full vbs)
      sized h = (fits tx (full vbs) (leb→le _ _ h)).0

      nonzero :
          leb (length (full vbs)) snmp_tx_buf ≡ true
          → (ber_enc_length (put_bytes (ber_enc_init tx snmp_tx_buf) (full vbs)) == 0) ≡ false
      nonzero h = let p : 0 < length (full vbs) = full_pos vbs in rw (sized h) (ground arith)

      none_sent :
          leb (length (full vbs)) snmp_tx_buf ≡ false
          → ber_enc_length (put_bytes (ber_enc_init tx snmp_tx_buf) (full vbs)) ≡ 0
      none_sent h = too_long tx (full vbs) (ground arith)

  -- The request that parsed gets its answer, for every kind of request.
  respond-Sends : (c : AgentConfig) (tx : ℕ → ℕ) → Sends (respond c m v tx r) (answer c m v r)
  unfolding respond
  respond-Sends c tx =
      branch r.too_many _ _ _ _ (send_error-Sends tx err_too_big 0 (omega arith) (omega arith)) (
        branch (r.pdu_type == snmp_pdu_set) _ _ _ _
          (send_error-Sends tx err_not_writable 1 (omega arith) (omega arith))
          (branch (r.pdu_type == snmp_pdu_get) _ _ _ _ (send_planned-Sends tx (plan_get m r)) (
            branch (r.pdu_type == snmp_pdu_getnext) _ _ _ _
              (send_planned-Sends tx (plan_getnext m r))
              (branch (r.pdu_type == snmp_pdu_getbulk) _ _ _ _
                (send_planned-Sends tx (plan_getbulk c m r))
                (send_error-Sends tx err_gen_err 0 (omega arith) (omega arith))))))
    where
      branch :
          (b : Bool) (x y : (ℕ → ℕ) × ℕ) (xs ys : List ℕ)
          → Sends x xs
          → Sends y ys
          → Sends (if b then x else y) (if b then xs else ys)
      branch true x y xs ys p q = p
      branch false x y xs ys p q = q

-- A datagram that `parse_request` accepts is answered: the returned length and the tail of the
-- transmit buffer are the answer to the parsed request that the table of cases `answer` gives.
-- The simulation is valid, the table's rows are bytes, and the community has at most 1400 bytes.
pub handle_request-Sends :
    (c : AgentConfig) (m : Mib) (v : MibSource) (tx : ℕ → ℕ) (buf : List ℕ) (r : ParsedReq)
    → IsReady m v
    → length c.read_community ≤ 1400
    → parse_request c buf ≡ some r
    → Sends (handle_request c m v tx buf) (answer c m v r)
unfolding handle_request
handle_request-Sends c m v tx buf r ready small h =
    let ok : IsAccepted c r = parse_request-IsAccepted c buf r h in
    let short : length r.community ≤ 1400 = rw ok.community small in
    rw (handle_request, h) (respond-Sends m v ready r ok.id short c tx)

response_form_pos :
    (m : Mib) (v : MibSource) (id status index : ℕ) (community : List ℕ) (vbs : List RespVb)
    → 0 < length (response_form m v id status index community vbs)
unfolding response_form
response_form_pos m v id status index community vbs = omega arith

answer_pos :
    (c : AgentConfig) (m : Mib) (v : MibSource) (r : ParsedReq) → 0 < length (answer c m v r)
answer_pos c m v r = branch r.too_many _ _ (error err_too_big 0) (
    branch (r.pdu_type == snmp_pdu_set) _ _ (error err_not_writable 1) (
      branch (r.pdu_type == snmp_pdu_get) _ _ (planned (plan_get m r)) (
        branch (r.pdu_type == snmp_pdu_getnext) _ _ (planned (plan_getnext m r)) (
          branch (r.pdu_type == snmp_pdu_getbulk) _ _ (planned (plan_getbulk c m r))
            (error err_gen_err 0)))))
  where
    branch :
        (b : Bool) (xs ys : List ℕ)
        → 0 < length xs
        → 0 < length ys
        → 0 < length (if b then xs else ys)
    branch true xs ys p q = p
    branch false xs ys p q = q

    error : (status index : ℕ) → 0 < length (error_answer m v r status index)
    error status index = response_form_pos m v r.request_id status index r.community []

    planned : (vbs : List RespVb) → 0 < length (planned_answer m v r vbs)
    planned vbs =
        branch
          (leb (length (response_form m v r.request_id err_none 0 r.community vbs)) snmp_tx_buf) _ _
          (response_form_pos m v r.request_id err_none 0 r.community vbs) (error err_too_big 0)

-- `handle_request` sends nothing exactly where `parse_request` drops the datagram, on a valid
-- simulation and a table whose rows are bytes, with a community of at most 1400 bytes.
pub handle_request_drops_iff :
    (c : AgentConfig) (m : Mib) (v : MibSource) (tx : ℕ → ℕ) (buf : List ℕ)
    → IsReady m v
    → length c.read_community ≤ 1400
    → ((handle_request c m v tx buf).1 ≡ 0) ↔ (parse_request c buf ≡ none)
unfolding handle_request
handle_request_drops_iff c m v tx buf ready small = elim (Option-cases (parse_request c buf)) [
  | inl dropped ↦ (λ h. dropped, λ h. rw (handle_request, dropped) refl)
  | inr (r, h) ↦
      let sends : Sends (handle_request c m v tx buf) (answer c m v r) =
        handle_request-Sends c m v tx buf r ready small h in
      (
        λ z. absurd (omega (arith, sends.0, answer_pos c m v r)),
        λ z. absurd (none-ne-some r (sym z ∙ h)),
      )
]
