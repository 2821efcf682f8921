-- ===== src/Md5/Update.antt =====
-- An update that fills the buffer (src/md5.cpp): the filled buffer is one block, the whole blocks of what
-- follows are transformed in place, and the rest goes to the front of the buffer.
use mathlib.Core.List.{append_assoc}
use audd_cpp.Prelude.{
  ℕ, suc, ◌+◌, ◌-◌, ◌*◌, ◌/◌, ◌%◌, ◌^◌, ◌≤◌, ◌≡◌, refl, sym, ap, ◌∙◌, List, [], ◌++◌, arith, length,
  take, drop, length-append, length-take, length-drop, take-append_eq, drop-append_eq,
  take-append-drop, leb, Bool-cases, inl, inr, take_all,
}
use audd_cpp.Md5.{Words, md5_transform}
use audd_cpp.Md5.Context.{Md5Ctx, initial_state, memcpy, update_full, md5_update}
use audd_cpp.Md5.Blocks.{absorb, absorb-append, drop-drop, transform_from-eq-absorb}
use audd_cpp.Md5.Holds.{
  Holds, index_of-Holds, length-memcpy, take-memcpy, counted_more, Holds-update_short,
}

module _ {ctx : Md5Ctx} {message : List ℕ} (h : Holds ctx message) (bytes : List ℕ) where
  abbrev part_len : ℕ
  part_len = 64 - length h.rest

  abbrev block : List ℕ
  block = h.rest ++ take part_len bytes

  abbrev more : ℕ
  more = (length bytes - part_len) / 64

  abbrev taken : List ℕ
  taken = take (more * 64) (drop part_len bytes)

  abbrev left : List ℕ
  left = drop (part_len + more * 64) bytes

  length-block : part_len ≤ length bytes → length block ≡ 64
  length-block le =
      omega (arith, h.short, length-append h.rest (take part_len bytes), length-take part_len bytes)

  memcpy-block :
      part_len ≤ length bytes → memcpy (length h.rest) (take part_len bytes) ctx.buffer ≡ block
  memcpy-block le =
      sym (take_all 64 _ (omega (arith, h.sized, filled)))
      ∙ ap (λ n. take n (memcpy (length h.rest) (take part_len bytes) ctx.buffer))
          (sym (length-block le))
      ∙ take-memcpy h.rest (take part_len bytes) ctx.buffer h.buffered
    where
      filled : length (memcpy (length h.rest) (take part_len bytes) ctx.buffer) ≡ length ctx.buffer
      filled = length-memcpy _ _ _ (omega (arith, h.short, h.sized, length-take part_len bytes))

  length-taken : part_len ≤ length bytes → length taken ≡ more * 64
  length-taken le =
      omega (arith, length-take (more * 64) (drop part_len bytes), length-drop part_len bytes)

  taken-left : taken ++ left ≡ drop part_len bytes
  taken-left =
      ap (λ l. taken ++ l) (sym (drop-drop (more * 64) part_len bytes))
      ∙ take-append-drop (more * 64) (drop part_len bytes)

  absorb-taken :
      (state : Words)
      → part_len ≤ length bytes
      → absorb more state (drop part_len bytes) ≡ absorb more state taken
  absorb-taken state le =
      ap (absorb more state) (sym taken-left)
      ∙ ap (λ n. absorb n state (taken ++ left)) stop
      ∙ absorb-append more 0 state taken left (length-taken le)
    where
      stop : more ≡ more + 0
      stop = omega arith

  absorb_all :
      part_len ≤ length bytes
      → absorb more (md5_transform ctx.state block) taken
        ≡ absorb (h.blocks + suc more) initial_state (h.whole ++ (block ++ taken))
  absorb_all le = sym (
      absorb-append h.blocks (suc more) initial_state h.whole (block ++ taken) h.aligned
      ∙ ap (λ s. absorb (suc more) s (block ++ taken)) (sym h.absorbed)
      ∙ λ j. absorb more (md5_transform ctx.state (head j)) (tail j))
    where
      head : take 64 (block ++ taken) ≡ block
      head = take-append_eq 64 block taken (sym (length-block le))

      tail : drop 64 (block ++ taken) ≡ taken
      tail = drop-append_eq 64 block taken (sym (length-block le))

  -- The part that fills the buffer, then the whole blocks of what follows, then the rest.
  split_full : message ++ bytes ≡ (h.whole ++ (block ++ taken)) ++ left
  split_full = ap (λ m. m ++ bytes) h.split ∙ simp (append_assoc, taken-left, take-append-drop)

  update_full-eq :
      (bitcount : ℕ)
      → part_len ≤ length bytes
      → update_full (length h.rest) (record ctx { bitcount = bitcount }) bytes ≡ record {
        state = absorb more (md5_transform ctx.state block) taken;
        bitcount = bitcount;
        buffer = memcpy 0 left block;
      }
  unfolding update_full
  update_full-eq bitcount le =
      rw
        (
          memcpy-block le,
          transform_from-eq-absorb (length bytes) part_len bytes (md5_transform ctx.state block) le
              (omega (arith, h.short)),
          absorb-taken (md5_transform ctx.state block) le,
        )
        refl

  Holds-update_full :
      (bitcount : ℕ)
      → bitcount ≡ length (message ++ bytes) * 8 % 2 ^ 64
      → part_len ≤ length bytes
      → Holds
          (update_full (length h.rest) (record ctx { bitcount = bitcount }) bytes)
          (message ++ bytes)
  Holds-update_full bitcount counted le = rw (update_full-eq bitcount le) (record {
    blocks = h.blocks + suc more;
    whole = h.whole ++ (block ++ taken);
    rest = left;
    split = split_full;
    aligned = omega (
      arith,
      h.aligned,
      length-append h.whole (block ++ taken),
      length-append block taken,
      length-block le,
      length-taken le,
    );
    short = omega (arith, length-drop (part_len + more * 64) bytes);
    absorbed = absorb_all le;
    counted = counted;
    buffered = take-memcpy [] left block refl;
    sized =
        length-memcpy 0 left block
          (omega (arith, length-block le, length-drop (part_len + more * 64) bytes))
        ∙ length-block le;
  })

  pub Holds-md5_update : Holds (md5_update ctx bytes) (message ++ bytes)
  unfolding md5_update
  Holds-md5_update =
      rw (index_of-Holds h) (elim (Bool-cases (leb (64 - length h.rest) (length bytes))) [
        | inl full ↦ rw full (Holds-update_full _ counted (ground arith))
        | inr fits ↦ rw fits (Holds-update_short h bytes _ counted (ground arith))
      ])
    where
      counted :
          (ctx.bitcount + length bytes * 2 ^ 3 % 2 ^ 64) % 2 ^ 64
          ≡ length (message ++ bytes) * 8 % 2 ^ 64
      counted =
          counted_more (length message) ctx.bitcount (length bytes) h.counted
          ∙ ap (λ n. n * 8 % 2 ^ 64) (sym (length-append message bytes))
