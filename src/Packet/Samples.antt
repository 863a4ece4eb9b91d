-- ===== src/Packet/Samples.antt =====
-- Packets for the tests: all zero but for the fields that a test names.
use blueman_artifact.Prelude.{
  ℕ, zero, suc, ◌∙◌, arith, List, replicate, poke, length-poke, AllBytes, AllBytes-poke,
  length-replicate,
}
use blueman_artifact.Machine.{Machine}
use blueman_artifact.Packet.{IsPacket}

AllBytes-replicate : (n : ℕ) → AllBytes (replicate n 0)
AllBytes-replicate zero j = omega arith
AllBytes-replicate (suc n) zero = omega arith
AllBytes-replicate (suc n) (suc j) = AllBytes-replicate n j

-- A packet with the given address, `len`, `max_payload_len` and first four bytes of `pkt`, and
-- with the word at offset 28 (the L2CAP channel id).
abbrev pub sample_mem : (address len limit head cid : ℕ) → List ℕ
sample_mem address len limit head cid =
    poke (poke (poke (poke (poke (replicate 279 0) 12 4 address) 16 4 len) 20 4 limit) 24 4 head) 28
      2 cid

abbrev pub sample : (address len limit head cid : ℕ) → (ℕ → ℕ) → Machine
sample address len limit head cid draws = record {
  mem = sample_mem address len limit head cid;
  draws = draws;
}

pub sample-IsPacket :
    (address len limit head cid : ℕ) (draws : ℕ → ℕ)
    → IsPacket (sample address len limit head cid draws)
sample-IsPacket address len limit head cid draws =
    let m₁ = poke (replicate 279 0) 12 4 address in
    let m₂ = poke m₁ 16 4 len in
    let m₃ = poke m₂ 20 4 limit in
    let m₄ = poke m₃ 24 4 head in
    record {
      size =
          length-poke 2 m₄ 28 cid
          ∙ length-poke 4 m₃ 24 head
          ∙ length-poke 4 m₂ 20 limit
          ∙ length-poke 4 m₁ 16 len
          ∙ length-poke 4 (replicate 279 0) 12 address
          ∙ length-replicate {A = ℕ} 279 0;
      bytes = AllBytes-poke 2 m₄ 28 cid (
          AllBytes-poke 4 m₃ 24 head (
            AllBytes-poke 4 m₂ 20 limit (
              AllBytes-poke 4 m₁ 16 len
                (AllBytes-poke 4 (replicate 279 0) 12 address (AllBytes-replicate 279)))));
    }

-- The stream of random numbers that repeats one value.
abbrev pub always : ℕ → ℕ → ℕ
always v i = v
