-- ===== src/Throttle/Kept.antt =====
-- internal/bandwidth/throttle.go: what each step of the two goroutines keeps.
use multi_protocol_proxy.Prelude.{
  ℕ, ◌+◌, ◌*◌, ◌≤◌, Bool, true, false, ◌≡◌, refl, sym, ap, arith, if◌then◌else◌, reaches,
  below-minus, below-reaches,
}
use multi_protocol_proxy.Throttle.{
  ThrottledConn, token, refill, consume_tokens, Side, reader, writer, CallStage, idle, in_io, waits,
  to_consume, Transfers, stage_of, put_stage,
}
use multi_protocol_proxy.Throttle.Waiting.{IsRunning}
use multi_protocol_proxy.Throttle.Moves.{
  spent, Moves, Moves-next, Moves-none, refill-Moves, refill-spent, consume_tokens-Moves,
}

-- The bytes that a call has moved and not yet consumed.
abbrev pub debt : CallStage → ℕ
debt (to_consume n) = n
debt _ = 0

-- The bytes that a call has moved and not yet consumed, or may still move: `m` at most.
abbrev pub reserve : ℕ → CallStage → ℕ
reserve m in_io = m
reserve m (to_consume n) = n
reserve m _ = 0

pub debt-le : (m : ℕ) (st : CallStage) → debt st ≤ reserve m st
debt-le m idle = omega arith
debt-le m in_io = omega arith
debt-le m (waits needed until) = omega arith
debt-le m (to_consume n) = omega arith

abbrev pub debts : Transfers → ℕ
debts s = debt s.reading + debt s.writing

abbrev pub reserves : ℕ → Transfers → ℕ
reserves m s = reserve m s.reading + reserve m s.writing

-- What holds in every run from a connection on, where no call moves more than `m` bytes.
pub record IsKept (m : ℕ) (tc : ThrottledConn) (s : Transfers) : Type 0 where
  pub consumed : ℕ
  pub cost : Moves consumed tc s.conn
  pub counted : consumed + debts s ≡ s.moved
  pub owed : spent s.conn + reserves m s * token ≤ s.conn.max_tokens + (m + m) * token
  pub small_read : reserve m s.reading ≤ m
  pub small_write : reserve m s.writing ≤ m
  pub read : s.conn.last_refill ≤ s.now

-- A goroutine comes to another stage, and the connection to another state.
pub record IsStep (m : ℕ) (st st' : CallStage) (s s' : Transfers) : Type 0 where
  pub paid : ℕ
  pub cost : Moves paid s.conn s'.conn
  pub same_sides : (s'.reading ≡ s.reading) × (s'.writing ≡ s.writing)
  pub counted : paid + debt st' + s.moved ≡ debt st + s'.moved
  pub owed :
      (other : ℕ)
      → other ≤ m
      → spent s.conn + (reserve m st + other) * token ≤ s.conn.max_tokens + (m + m) * token
      → spent s'.conn + (reserve m st' + other) * token ≤ s.conn.max_tokens + (m + m) * token
  pub small : reserve m st' ≤ m
  pub read : s'.conn.last_refill ≤ s'.now

pub step-IsKept :
    (m : ℕ) (tc : ThrottledConn) (side : Side) (st st' : CallStage) (s s' : Transfers)
    → stage_of side s ≡ st
    → IsKept m tc s
    → IsStep m st st' s s'
    → IsKept m tc (put_stage side st' s')
step-IsKept m tc reader st st' s s' e k p = record {
  consumed = k.consumed + p.paid;
  cost = Moves-next k.consumed p.paid tc s.conn s'.conn k.cost p.cost;
  counted = omega (arith, k.counted, p.counted, ap debt e, ap debt p.same_sides.1);
  owed =
      let same : reserve m st ≡ reserve m s.reading = ap (reserve m) (sym e) in
      let other : reserve m s'.writing ≡ reserve m s.writing = ap (reserve m) p.same_sides.1 in
      let after = p.owed (reserve m s.writing) k.small_write (rw same k.owed) in
      omega (arith, rw (← other) at after, p.cost.same_max);
  small_read = p.small;
  small_write = omega (arith, k.small_write, ap (reserve m) p.same_sides.1);
  read = p.read;
}
step-IsKept m tc writer st st' s s' e k p = record {
  consumed = k.consumed + p.paid;
  cost = Moves-next k.consumed p.paid tc s.conn s'.conn k.cost p.cost;
  counted = omega (arith, k.counted, p.counted, ap debt e, ap debt p.same_sides.0);
  owed =
      let same : reserve m st ≡ reserve m s.writing = ap (reserve m) (sym e) in
      let other : reserve m s'.reading ≡ reserve m s.reading = ap (reserve m) p.same_sides.0 in
      let after = p.owed (reserve m s.reading) k.small_read (rw same (omega (arith, k.owed))) in
      omega (arith, rw (← other) at after, p.cost.same_max);
  small_read = omega (arith, k.small_read, ap (reserve m) p.same_sides.0);
  small_write = p.small;
  read = p.read;
}

-- A call that begins.
pub call-IsStep :
    (m : ℕ) (s : Transfers) (len : ℕ)
    → IsRunning s.conn
    → s.conn.last_refill ≤ s.now
    → IsStep m idle (waits len s.now) s s
call-IsStep m s len r read = record {
  paid = 0;
  cost = Moves-none s.conn r;
  same_sides = (refl, refl);
  counted = omega arith;
  owed = λ other le h. h;
  small = omega arith;
  read = read;
}

pub try-IsStep :
    (m needed until wakes : ℕ) (s : Transfers)
    → IsRunning s.conn
    → s.conn.last_refill ≤ s.now
    → let tc = refill s.conn s.now in
      IsStep m
        (waits needed until)
        (if reaches tc.tokens token then in_io else waits needed wakes)
        s
        (record s { conn = tc })
try-IsStep m needed until wakes s r read = go (reaches (refill s.conn s.now).tokens token) refl
  where
    go :
        (b : Bool)
        → reaches (refill s.conn s.now).tokens token ≡ b
        → IsStep m
            (waits needed until)
            (if b then in_io else waits needed wakes)
            s
            (record s { conn = refill s.conn s.now })
    go true whole =
        let cost = refill-Moves s.conn s.now r read in
        let tc = refill s.conn s.now in
        record {
          paid = 0;
          cost = cost;
          same_sides = (refl, refl);
          counted = omega arith;
          owed =
              let room = below-reaches tc.tokens token tc.max_tokens whole cost.running.holds in
              λ other le h. omega (arith, room, le, cost.same_max);
          small = omega arith;
          read = omega (arith, (refill-spent s.conn s.now).1);
        }
    go false short =
        let (less, at_now) = refill-spent s.conn s.now in
        record {
          paid = 0;
          cost = refill-Moves s.conn s.now r read;
          same_sides = (refl, refl);
          counted = omega arith;
          owed = λ other le h. omega (arith, h, less);
          small = omega arith;
          read = omega (arith, at_now);
        }

pub move-IsStep :
    (m n : ℕ) (s : Transfers)
    → n ≤ m
    → IsRunning s.conn
    → s.conn.last_refill ≤ s.now
    → IsStep m in_io (to_consume n) s (record s { moved = s.moved + n })
move-IsStep m n s le r read = record {
  paid = 0;
  cost = Moves-none s.conn r;
  same_sides = (refl, refl);
  counted = omega arith;
  owed = λ other small h. omega (arith, h, le);
  small = le;
  read = read;
}

pub fail-IsStep :
    (m : ℕ) (s : Transfers)
    → IsRunning s.conn
    → s.conn.last_refill ≤ s.now
    → IsStep m in_io idle s s
fail-IsStep m s r read = record {
  paid = 0;
  cost = Moves-none s.conn r;
  same_sides = (refl, refl);
  counted = omega arith;
  owed = λ other small h. omega (arith, h);
  small = omega arith;
  read = read;
}

pub consume-IsStep :
    (m n : ℕ) (s : Transfers)
    → IsRunning s.conn
    → s.conn.last_refill ≤ s.now
    → IsStep m (to_consume n) idle s (record s { conn = consume_tokens s.conn n })
unfolding consume_tokens
consume-IsStep m n s r read = record {
  paid = n;
  cost = consume_tokens-Moves s.conn n r;
  same_sides = (refl, refl);
  counted = omega arith;
  owed =
      let taken = below-minus s.conn.tokens s.conn.max_tokens (n * token) r.bounded in
      λ other small h. omega (arith, h, taken);
  small = omega arith;
  read = read;
}
