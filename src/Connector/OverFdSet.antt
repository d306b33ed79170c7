-- ===== src/Connector/OverFdSet.antt =====
-- The poll set of the connector is an `FdSet`, which it asks for writing and errors.
use netxy.Base.{true, false, ltb, []}
use netxy.Connector.{PollOps}
use netxy.FdSet.Bits.{Flags}
use netxy.FdSet.{FdSet, Checks, Masks, add, del, check, PollAnswer, minus_one, count, poll}

-- `WriteCheck | ErrorCheck`
abbrev both : Checks
both = record { read = false; write = true; error = true }

-- a set whose memory can be got, as `ox_fdset_new` makes it, with the flags' zero and what the memory holds
over_fd_set : Masks → Flags → Flags → PollOps
over_fd_set masks zero stale = record {
  Carrier = FdSet;
  Answer = PollAnswer;
  create = record { poll_fds = []; limit_size = 1024 };
  add = λ f fd. add masks true zero stale f fd both;
  del = λ f fd. del masks f fd both;
  poll = λ answer f.
      let (result, g) = poll f answer in (elim result [ minus_one ↦ false | count n ↦ ltb 0 n ], g);
  has_error = λ f fd. check masks f fd (record { read = false; write = false; error = true });
  is_writable = λ f fd. check masks f fd (record { read = false; write = true; error = false });
}
