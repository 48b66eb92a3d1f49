-- ===== src/Snmp/Agent/Bulk.antt =====
-- `plan_getbulk` of lib/snmp/snmp_agent.c.
use microcontroller_devices.Prelude.{ℕ, zero, suc, ◌+◌, ◌-◌, ◌^◌, ◌≤◌}
use microcontroller_devices.Prelude.{ltb, leb, ◌==◌, if◌then◌else◌}
use microcontroller_devices.Prelude.{arith}
use microcontroller_devices.Prelude.{Bool, true, false, ◌||◌}
use microcontroller_devices.Prelude.{Option, none, some, List, [], ◌∷◌, ◌++◌}
use microcontroller_devices.Prelude.{length, length-append, drop}
use mathlib.Core.List.{map}
use microcontroller_devices.Snmp.Mib.{Mib, mib_next_leaf}
use microcontroller_devices.Snmp.Agent.{
  AgentConfig, ParsedReq, RespVb, set_vb_next, max_resp_vb, exc_end_of_mib_view,
}

-- One repeater: its request name, `cursor[j]` and `done_walk[j]`.
pub record Walker : Type 0 where
  pub name : List ℕ
  pub cursor : Option ℕ
  pub done : Bool

-- The varbind that a repeater which is not done plans next.
pub walker_vb : Mib → Walker → RespVb
walker_vb m w = elim w.cursor [
  | none ↦ set_vb_next m w.name
  | some k ↦ elim (mib_next_leaf m k) [
    | none ↦ record { leaf = some k; name = w.name; exception = exc_end_of_mib_view }
    | some j ↦ record { leaf = some j; name = w.name; exception = 0 }
  ]
]

pub walker_after : Walker → RespVb → Walker
walker_after w vb =
    if vb.exception == exc_end_of_mib_view
    then record w { done = true }
    else record w { cursor = vb.leaf }

-- The inner loop, with `n` varbinds planned so far.
pub bulk_round : Mib → ℕ → ℕ → List Walker → List RespVb × List Walker
bulk_round m limit n [] = ([], [])
bulk_round m limit n (w ∷ ws) =
    let skipped = bulk_round m limit n ws in
    let vb = walker_vb m w in
    let taken = bulk_round m limit (n + 1) ws in
    if ltb n limit
    then (if w.done
        then (skipped.0, w ∷ skipped.1)
        else (vb ∷ taken.0, walker_after w vb ∷ taken.1))
    else ([], w ∷ ws)

-- The outer loop, with the repetitions left.
pub bulk_rounds : Mib → ℕ → ℕ → ℕ → List Walker → List RespVb
bulk_rounds m limit zero n ws = []
bulk_rounds m limit (suc reps) n ws =
    let one = bulk_round m limit n ws in
    let more = one.0 ++ bulk_rounds m limit reps (n + length one.0) one.1 in
    if ltb n limit then more else []

-- The non-repeaters: one GETNEXT each.
pub bulk_firsts : Mib → ℕ → ℕ → ℕ → List (List ℕ) → List RespVb
bulk_firsts m limit n zero names = []
bulk_firsts m limit n (suc k) [] = []
bulk_firsts m limit n (suc k) (name ∷ names) =
    let more = set_vb_next m name ∷ bulk_firsts m limit (n + 1) k names in
    if ltb n limit then more else []

-- An int32_t below 0 counts as 0.
abbrev pub at_least_zero : ℕ → ℕ
at_least_zero v = if leb (2 ^ 31) v then 0 else v

abbrev pub start_walker : List ℕ → Walker
start_walker name = record { name = name; cursor = none; done = false }

pub plan_getbulk : AgentConfig → Mib → ParsedReq → List RespVb
plan_getbulk c m r =
    let nvb = length r.names in
    let asked = at_least_zero r.field2 in
    let non_rep = if ltb nvb asked then nvb else asked in
    let max_rep = at_least_zero r.field3 in
    let firsts = bulk_firsts m (max_resp_vb c) 0 non_rep r.names in
    let repeated =
      bulk_rounds m (max_resp_vb c) max_rep (length firsts)
        (map start_walker (drop non_rep r.names)) in
    if nvb - non_rep == 0 || max_rep == 0 then firsts else firsts ++ repeated

length-bulk_round :
    (m : Mib) (limit n : ℕ) (ws : List Walker)
    → n ≤ limit
    → n + length (bulk_round m limit n ws).0 ≤ limit
unfolding bulk_round
length-bulk_round m limit n [] h = omega arith
length-bulk_round m limit n (w ∷ ws) h =
    ground (arith, length-bulk_round m limit n ws, length-bulk_round m limit (n + 1) ws)

length-bulk_rounds :
    (m : Mib) (limit reps n : ℕ) (ws : List Walker)
    → n ≤ limit
    → n + length (bulk_rounds m limit reps n ws) ≤ limit
unfolding bulk_rounds
length-bulk_rounds m limit zero n ws h = omega arith
length-bulk_rounds m limit (suc reps) n ws h =
    let one = bulk_round m limit n ws in
    ground (
      arith,
      length-bulk_round m limit n ws,
      length-bulk_rounds m limit reps (n + length one.0) one.1,
      length-append one.0 (bulk_rounds m limit reps (n + length one.0) one.1),
    )

length-bulk_firsts :
    (m : Mib) (limit n k : ℕ) (names : List (List ℕ))
    → n ≤ limit
    → n + length (bulk_firsts m limit n k names) ≤ limit
unfolding bulk_firsts
length-bulk_firsts m limit n zero names h = omega arith
length-bulk_firsts m limit n (suc k) [] h = omega arith
length-bulk_firsts m limit n (suc k) (name ∷ names) h =
    ground (arith, length-bulk_firsts m limit (n + 1) k names)

-- `plan_getbulk` never plans more varbinds than the array `vbs` holds, whatever counts the
-- request names.
pub length-plan_getbulk_le :
    (c : AgentConfig) (m : Mib) (r : ParsedReq) → length (plan_getbulk c m r) ≤ max_resp_vb c
unfolding plan_getbulk
length-plan_getbulk_le c m r =
    let nvb = length r.names in
    let asked = at_least_zero r.field2 in
    let non_rep = if ltb nvb asked then nvb else asked in
    let firsts = bulk_firsts m (max_resp_vb c) 0 non_rep r.names in
    let walkers = map start_walker (drop non_rep r.names) in
    fits firsts (bulk_rounds m (max_resp_vb c) (at_least_zero r.field3) (length firsts) walkers) _
      (length-bulk_firsts m (max_resp_vb c) 0 non_rep r.names (omega arith))
      (length-bulk_rounds m (max_resp_vb c) (at_least_zero r.field3) (length firsts) walkers)
  where
    fits :
        (xs ys : List RespVb) (b : Bool)
        → 0 + length xs ≤ max_resp_vb c
        → (length xs ≤ max_resp_vb c → length xs + length ys ≤ max_resp_vb c)
        → length (if b then xs else xs ++ ys) ≤ max_resp_vb c
    fits xs ys true h k = omega arith
    fits xs ys false h k = omega (arith, length-append xs ys, k (omega arith))
