-- ===== src/Intervals/Chunk.antt =====
-- src/intervals.hpp: `interval_chunk`, which cuts a set into chunks of one size, at
-- `T = std::uint64_t`. The code's assertion on a round is not modelled.
pub mod Pieces
pub mod Correct
use motion_planning_gadget_s.Common.{
  ℕ, zero, suc, ◌+◌, ◌-◌, min, List, [], ◌∷◌, ◌++◌, Option, none, some,
}
use motion_planning_gadget_s.Common.{◌==◌, ltb, if◌then◌else◌, word, add64, sub64}
use motion_planning_gadget_s.Intervals.Sets.{Interval}

-- The local variables of `interval_chunk`; `size` is `working_interval_size`.
pub record Chunker : Type 0 where
  pub ret : List (List Interval)
  pub working : List Interval
  pub size : ℕ

-- `endpoint` of a round, by `__builtin_add_overflow`
abbrev pub endpoint : ℕ → ℕ → ℕ → ℕ
endpoint first second needed =
    min (if ltb (first + needed) word then first + needed else second) second

-- The rest of a round: push the piece, and push the chunk if it is full.
pub push_piece : ℕ → Chunker → ℕ → ℕ → Chunker
push_piece chunk_size c first second =
    let size = add64 c.size (sub64 second first) in
    let working = c.working ++ ((first, second) ∷ []) in
    if size == chunk_size
    then record { ret = c.ret ++ (working ∷ []); working = []; size = 0 }
    else record { ret = c.ret; working = working; size = size }

-- `while (cur.first != cur.second)`; `none` means that the fuel ran out.
pub piece_loop : ℕ → ℕ → Chunker → ℕ → ℕ → Option Chunker
unfolding push_piece
piece_loop zero chunk_size c first second = none
piece_loop (suc fuel) chunk_size c first second =
    let end = endpoint first second (sub64 chunk_size c.size) in
    let more = piece_loop fuel chunk_size (push_piece chunk_size c first end) end second in
    if first == second then some c else more

-- A round takes at least one number off the interval.
pub chunk_loop : ℕ → Chunker → List Interval → Option Chunker
unfolding piece_loop
chunk_loop chunk_size c [] = some c
chunk_loop chunk_size c (cur ∷ left) =
    elim (piece_loop (suc (suc (cur.1 - cur.0))) chunk_size c cur.0 cur.1) [
      | none ↦ none
      | some c' ↦ chunk_loop chunk_size c' left
    ]

-- `if (!working.empty()) ret.push_back(std::move(working));`
abbrev pub straggling : List (List Interval) → List Interval → List (List Interval)
straggling ret [] = ret
straggling ret (i ∷ working) = ret ++ ((i ∷ working) ∷ [])

-- `none` for a zero chunk size is the `std::logic_error`.
pub interval_chunk : List Interval → ℕ → Option (List (List Interval))
unfolding chunk_loop
interval_chunk left chunk_size =
    if chunk_size == 0
    then none
    else elim (chunk_loop chunk_size (record { ret = []; working = []; size = 0 }) left) [
      | none ↦ none
      | some c ↦ some (straggling c.ret c.working)
    ]
