-- ===== src/Race/Log/Parsing.antt =====
-- The loop of `Open` over the index file enters exactly the records that it holds.
use nvm_kv.Prelude.{
  ℕ, zero, suc, ◌+◌, ◌≤◌, ◌<◌, ◌≡◌, ◌∙◌, arith, [], ◌∷◌, length, Bytes, Memory, load, decode_le,
  ◌==◌, le→leb, false,
}
use nvm_kv.OrdMap.{OrdMap, insert_or_assign}
use nvm_kv.Engine.{ok}
use nvm_kv.Race.Bucket.{location_sz}
use nvm_kv.Race.Opening.{parse_index}
use nvm_kv.Race.Log.{Log, Records, entered}

-- The records end behind where they start, by at least one place for each record.
pub Records-le : (m : Memory) (p : ℕ) (log : Log) (e : ℕ) → Records m p log e → p + length log ≤ e
Records-le m p [] e h = omega arith
Records-le m p ((key, loc) ∷ log) e h =
    omega (arith, Records-le m (p + 4 + length key + location_sz) log e h.4)

eq_false : (n : ℕ) → 0 < n → n == 0 ≡ false
eq_false n h = ground arith

-- One round of the loop on a record, and the round that ends it.
parse_index_step :
    (fuel : ℕ) (m : Memory) (mapped p : ℕ) (map : OrdMap ℕ) (key : Bytes)
    → 0 < length key
    → decode_le (load m p 4) ≡ length key
    → load m (p + 4) (length key) ≡ key
    → p + 4 + length key ≤ mapped
    → parse_index (suc fuel) m mapped p map
      ≡ parse_index fuel m mapped
          (p + 4 + length key + location_sz)
          (insert_or_assign key (p + 4 + length key) map)
unfolding parse_index
parse_index_step fuel m mapped p map key pos size bytes inside = rw (
  size,
  le→leb (p + 4) mapped (omega arith),
  eq_false (length key) pos,
  le→leb (p + 4 + length key) mapped inside,
  bytes,
)

parse_index_end :
    (fuel : ℕ) (m : Memory) (mapped p : ℕ) (map : OrdMap ℕ)
    → decode_le (load m p 4) ≡ 0
    → p + 4 ≤ mapped
    → parse_index (suc fuel) m mapped p map ≡ ok (map, p)
unfolding parse_index
parse_index_end fuel m mapped p map size inside = rw (size, le→leb (p + 4) mapped inside)

pub parse_index-Records :
    (log : Log) (fuel : ℕ) (m : Memory) (mapped p e : ℕ) (map : OrdMap ℕ)
    → Records m p log e
    → decode_le (load m e 4) ≡ 0
    → e + 4 ≤ mapped
    → length log < fuel
    → parse_index fuel m mapped p map ≡ ok (entered p log map, e)
parse_index-Records [] zero m mapped p e map h size inside enough = elim enough [ ]
parse_index-Records [] (suc fuel) m mapped p e map h size inside enough =
    rw h (parse_index_end fuel m mapped e map size inside)
parse_index-Records ((key, loc) ∷ log) zero m mapped p e map h size inside enough = elim enough [ ]
parse_index-Records ((key, loc) ∷ log) (suc fuel) m mapped p e map h size inside enough =
    let next : ℕ = p + 4 + length key + location_sz in
    let below = Records-le m next log e h.4 in
    parse_index_step fuel m mapped p map key h.0 h.1 h.2 (omega arith)
    ∙ parse_index-Records log fuel m mapped next e (insert_or_assign key (p + 4 + length key) map)
        h.4 size inside (omega arith)
