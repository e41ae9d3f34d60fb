-- ===== src/Proxy/Capacity.antt =====
-- The capacity of the SNI proxy of internal/proxy/server.go.
use multi_protocol_proxy.Prelude.{ℕ, ◌+◌, ◌<◌, ◌≤◌, Bool, ◌≡◌, refl, arith}
use multi_protocol_proxy.Proxy.Accept.{
  Server, Accepted, conn, timed_out, broken, admit, round, release, tell, Step, accepts, releases,
  tells, shuts_down, Reachable, starts, steps,
}

-- The slots taken are within the capacity, and the wait group counts the connections that hold a
-- slot and those that are ending.
pub record IsWithin (max_conns : ℕ) (s : Server) (ending : ℕ) : Type 0 where
  pub capacity : s.max_conns ≡ max_conns
  pub bounded : s.held ≤ max_conns
  pub counted : s.waiting ≡ s.held + ending

round-IsWithin :
    (m : ℕ) (s : Server) (n : ℕ) (later : Bool) (a : Accepted)
    → IsWithin m s n
    → IsWithin m (round s later a).0 n
unfolding round admit
round-IsWithin m s n later a v = go a
  where
    go : (b : Accepted) → IsWithin m (round s later b).0 n
    go conn = record {
      capacity = ground (arith, v.capacity);
      bounded = ground (arith, v.capacity, v.bounded);
      counted = ground (arith, v.counted);
    }
    go timed_out = record {
      capacity = ground (arith, v.capacity);
      bounded = ground (arith, v.bounded);
      counted = ground (arith, v.counted);
    }
    go broken = record {
      capacity = ground (arith, v.capacity);
      bounded = ground (arith, v.bounded);
      counted = ground (arith, v.counted);
    }

Step-IsWithin : (m : ℕ) (x y : Server × ℕ) → Step x y → IsWithin m x.0 x.1 → IsWithin m y.0 y.1
unfolding release tell
Step-IsWithin m _ _ (accepts s n later a) v = round-IsWithin m s n later a v
Step-IsWithin m _ _ (releases s n some_held) v = record {
  capacity = v.capacity;
  bounded = omega (arith, v.bounded);
  counted = omega (arith, v.counted);
}
Step-IsWithin m _ _ (tells s n some_ending) v = record {
  capacity = v.capacity;
  bounded = v.bounded;
  counted = omega (arith, v.counted);
}
Step-IsWithin m _ _ (shuts_down s n) v = record {
  capacity = v.capacity;
  bounded = v.bounded;
  counted = v.counted;
}

-- However connections come, end and are shut down, the proxy never serves more than `MaxConns` at a
-- time, and the wait group that a drain waits for counts exactly the connections that have not
-- ended.
pub Reachable-IsWithin : (m : ℕ) (x : Server × ℕ) → Reachable m x → IsWithin m x.0 x.1
Reachable-IsWithin m _ (starts _) = record {
  capacity = refl;
  bounded = omega arith;
  counted = omega arith;
}
Reachable-IsWithin m _ (steps _ x y before step) =
    Step-IsWithin m x y step (Reachable-IsWithin m x before)

-- A connection is rejected only when every slot is taken.
pub round-rejects :
    (s : Server) (later : Bool) (a : Accepted)
    → s.rejected < (round s later a).0.rejected
    → s.max_conns ≤ s.held
unfolding round admit
round-rejects s later a more = ground arith
