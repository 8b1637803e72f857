-- ===== src/Engine/Deliver.antt =====
-- What a completion with a buffer group is told.
use iouring_cc.Common.{
  ℕ, ◌+◌, ◌*◌, ◌/◌, ◌^◌, ◌<◌, ◌==◌, ◌≡◌, ◌≤◌, ◌∙◌, none, some, true, false, [], ◌∷◌, ◌++◌, arith,
  if◌then◌else◌,
}
use iouring_cc.Common.Int.{negsuc, ◌+ℤ◌, eqb_ℤ}
use iouring_cc.Common.Outcome.{done}
use iouring_cc.Request.Flags.{cqe_buffer, cqe_more}
use iouring_cc.Pools.{BufferPool, find_pool, new_pool}
use iouring_cc.Pools.Bounds.{get_buffer-new_pool}
use iouring_cc.Completion.Entry.{Cqe, flag_set}
use iouring_cc.Completion.{
  Completion, rw_provided_buffer, more, settle, complete, complete_provided, complete_with, is_none,
  info, invalid_gid,
}
use iouring_cc.Engine.{
  Engine, udata_timeout, find_handler, replaced, told_as, handle_cqe, handle_with, handle_provided,
  answer_with, record_completed,
}

module _ (c : Cqe) (e : Engine) (m : Completion)
    (submitted : (c.user_data == udata_timeout) ≡ false) (named : (c.user_data == 0) ≡ false)
    (found : find_handler c.user_data e.handlers ≡ some m)
    (grouped : eqb_ℤ m.buf_gid invalid_gid ≡ false) where
  handle_cqe_grouped :
      (p : BufferPool)
      → find_pool m.buf_gid e.pools ≡ some p
      → handle_cqe c e ≡ handle_provided c m (record e { pending = e.pending +ℤ negsuc 0 }) p
  unfolding handle_cqe handle_with
  handle_cqe_grouped p f = ground arith

  -- An entry without a buffer, for a completion with a group, is taken off the count and nothing
  -- else: the completion is not told of its result, which may be an error or the end of the file.
  pub entry_without_buffer :
      (p : BufferPool)
      → find_pool m.buf_gid e.pools ≡ some p
      → flag_set c.flags cqe_buffer ≡ false
      → handle_cqe c e ≡ done (record e { pending = e.pending +ℤ negsuc 0 })
  unfolding handle_provided
  entry_without_buffer p f b = handle_cqe_grouped p f ∙ ground arith

  -- An entry with a buffer, for a completion of that kind which has no answer yet, whose result is
  -- not that there are no buffers, and which announces no further entry: the answer is the address
  -- of the buffer that the entry names, within the pool, with its identifier and the result, and
  -- the completion is gone.
  pub entry_with_buffer :
      (size count base : ℕ)
      → count * size < 2 ^ 32
      → find_pool m.buf_gid e.pools ≡ some (new_pool size count base)
      → c.flags / 2 ^ 16 < count
      → c.flags < 2 ^ 32
      → flag_set c.flags cqe_buffer ≡ true
      → flag_set c.flags cqe_more ≡ false
      → m.kind ≡ rw_provided_buffer
      → m.answered ≡ false
      → eqb_ℤ c.res (negsuc 104) ≡ false
      → (handle_cqe c e
          ≡ done (record e {
            pending = e.pending +ℤ negsuc 0;
            handlers = replaced c.user_data none e.handlers;
            told = e.told ++ told_as c.user_data (if m.has_callback then some c.res else none);
            answers =
                e.answers
                ++ ((
                  c.user_data,
                  info (some (base + c.flags / 2 ^ 16 * size)) c.res m.buf_gid (c.flags / 2 ^ 16),
                )
                    ∷ []);
          }))
        × (c.flags / 2 ^ 16 * size + size ≤ (new_pool size count base).bytes)
  unfolding handle_provided answer_with complete_with complete complete_provided settle
      record_completed is_none more
  entry_with_buffer size count base fits f below word b more_unset k fresh r =
      let (q, within) = get_buffer-new_pool size count base (c.flags / 2 ^ 16) fits below in
      (handle_cqe_grouped (new_pool size count base) f ∙ ground arith, within)
