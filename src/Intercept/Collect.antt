-- ===== src/Intercept/Collect.antt =====
-- `intercept_ble_packet_for_init_corpus` of blueman-main/btfuzz.c: the first run records the
-- target's packets and finds the packet at which the coverage grew most.
pub mod Peak
pub mod Gathering
pub mod Loop
pub mod Collected
use blueman_artifact.Prelude.{
  ℕ, zero, suc, ◌+◌, ◌-◌, ◌^◌, ◌==◌, ltb, leb, if◌then◌else◌, Bool, true, false, ◌&&◌, ◌||◌, List,
  [], ◌∷◌, ◌++◌, u32, sub_u32,
}
use blueman_artifact.PktRecord.{BlePkt, PktRecord, add_pkt_to_seq_buf, save_seq_buf_to_file2}
use blueman_artifact.Coverage.{corpus_get_coverage}
use blueman_artifact.FieldMutator.Selection.{
  Floats, Mode, mixed_prob, Config, selection_strategy_setup,
}
use blueman_artifact.Ending.{Ending, done, stuck, ◌>>=◌}

-- A packet, and the coverage map at the time of its arrival.
pub record Arrival : Type 0 where
  pub pkt : BlePkt
  pub trace_bits : List ℕ

-- The variables of the loop.
pub record Collector : Type 0 where
  pub pkt_rec : PktRecord
  pub acks : List BlePkt
  pub coverage_count : ℕ
  pub max_delta : ℕ
  pub max_delta_index : ℕ
  pub cnt : ℕ

-- `device_id == 1`, up to the acknowledgement. `delta` is unsigned: it wraps if the count has fallen.
unfoldable pub record_pkt : Arrival → Collector → Collector
record_pkt a c =
    let pkt_rec = (add_pkt_to_seq_buf c.pkt_rec a.pkt).1 in
    let delta = sub_u32 (corpus_get_coverage a.trace_bits) c.coverage_count in
    if ltb c.max_delta delta
    then record c {
      pkt_rec = pkt_rec;
      max_delta = delta;
      max_delta_index = u32 (pkt_rec.count + 2 ^ 32 - 1);
    }
    else record c { pkt_rec = pkt_rec }

abbrev pub send_ack : BlePkt → Collector → Collector
send_ack p c = record c { acks = c.acks ++ (p ∷ []) }

-- `true` is `break`. `++cnt` is evaluated only if the tests before it leave it to.
unfoldable pub stop_or_go : ℕ → Arrival → Collector → Bool × Collector
stop_or_go max_num_of_pkt a c =
    let new = corpus_get_coverage a.trace_bits in
    let target = a.pkt.device_id == 1 in
    let counts = target && leb new c.coverage_count in
    let c' : Collector = if counts then record c { cnt = c.cnt + 1 } else c in
    if leb max_num_of_pkt c.pkt_rec.count
    then (true, c)
    else if counts && ltb 80 c'.cnt
    then (true, c')
    else (false, if target then record c' { coverage_count = new } else c')

unfoldable pub collect_step : ℕ → Arrival → Collector → Bool × Collector
unfolding record_pkt stop_or_go
collect_step max_num_of_pkt a c =
    stop_or_go max_num_of_pkt a
      (send_ack a.pkt (if a.pkt.device_id == 1 then record_pkt a c else c))

unfoldable pub collect_loop : ℕ → List Arrival → Collector → Ending (List Arrival × Collector)
unfolding collect_step
collect_loop max_num_of_pkt [] c = stuck
collect_loop max_num_of_pkt (a ∷ inbox) c =
    let (stop, c') = collect_step max_num_of_pkt a c in
    let next = collect_loop max_num_of_pkt inbox c' in if stop then done (inbox, c') else next

unfoldable pub stop_collecting : List Arrival → Collector → Ending (List Arrival × Collector)
stop_collecting [] c = stuck
stop_collecting (a ∷ inbox) c = done (inbox, send_ack (record a.pkt { mutated = 2 }) c)

-- The start of the function.
abbrev pub start_collecting : PktRecord → List BlePkt → Collector
start_collecting pkt_rec acks = record {
  pkt_rec = pkt_rec;
  acks = acks;
  coverage_count = 0;
  max_delta = 0;
  max_delta_index = 0;
  cnt = 0;
}

-- The count, the contents of the file `init_corpus`, and the variables at the end.
unfoldable pub intercept_ble_packet_for_init_corpus :
    ℕ → List Arrival → Collector → Ending (ℕ × List ℕ × Collector)
unfolding collect_loop stop_collecting
intercept_ble_packet_for_init_corpus max_num_of_pkt inbox c = do
  (inbox₁, c₁) ← collect_loop max_num_of_pkt inbox c
  (inbox₂, c₂) ← stop_collecting inbox₁ c₁
  done (c₂.pkt_rec.count, save_seq_buf_to_file2 c₂.pkt_rec, c₂)

-- The part under PKTSEL: whether the mode is mixed, and the configuration.
unfoldable pub select_after_collecting :
    (fl : Floats) → Mode → Collector → Config fl → Bool × Config fl
select_after_collecting fl mixed_prob c config =
    (true, selection_strategy_setup fl mixed_prob c.max_delta_index config)
select_after_collecting fl mode c config =
    (false, selection_strategy_setup fl mode c.max_delta_index config)
