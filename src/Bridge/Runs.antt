-- ===== src/Bridge/Runs.antt =====
-- Concrete runs of the loop of tools/bridge.c.
use mt8183_kukui_pmos.Prelude.{◌≡◌, ◌/◌, ◌%◌, arith, refl, true, false, not, [], ◌∷◌}
use mt8183_kukui_pmos.Bridge.Pixels.{grbg}
use mt8183_kukui_pmos.Bridge.Loop.{Round, Loop, Setup, next_round, bridge_round, bridge_loop}
use mt8183_kukui_pmos.Bridge.Kept.{
  IsBalanced, IsGood, AreShown, bridge_loop-IsBalanced, bridge_loop_live, bridge_loop_timeout,
}

abbrev setup : Setup
setup = record { order = grbg; width = 8; height = 4; retone = λ t. λ frame. t }

abbrev started : Loop
started = record {
  open_requests = 0;
  queued = false;
  tone = record {
    balance_red = λ x. x;
    balance_green = λ x. x;
    balance_blue = λ x. x;
    lut = λ i. i / 4;
  };
  yuyv = λ i. 0;
  frames = 0;
  written = [];
  failed = 0;
}

-- A driver that takes the buffer only when it does not have it.
abbrev good : Round
good = record {
  request_alloc = true;
  qbuf = not;
  request_queue = true;
  poll = true;
  dqbuf = true;
  memory = λ i. i % 256;
  write = true;
}

good-IsGood : IsGood good
good-IsGood = (refl, (refl, (refl, (refl, (refl, (refl, λ i. omega arith))))))

-- The loopback device does not take the frame.
abbrev unwritten : Round
unwritten = record good { write = false }

abbrev late : Round
late = record good { poll = false }

bridge_loop-IsBalanced_example :
    IsBalanced started (bridge_loop setup (good ∷ unwritten ∷ late ∷ good ∷ []) started).0
bridge_loop-IsBalanced_example =
    bridge_loop-IsBalanced setup (good ∷ unwritten ∷ late ∷ good ∷ []) started

bridge_loop_live_example :
    (let (after, status) = bridge_loop setup (good ∷ good ∷ good ∷ []) started in
      (status ≡ 0)
      × ((after.frames ≡ 3)
          × (AreShown setup (good ∷ good ∷ good ∷ []) [] after.written × (after.queued ≡ false))))
bridge_loop_live_example =
    bridge_loop_live setup (good ∷ good ∷ good ∷ []) started
      (good-IsGood, (good-IsGood, (good-IsGood, tt))) refl

bridge_loop_timeout_example :
    (let after = (bridge_loop setup (late ∷ good ∷ good ∷ []) started).0 in
      ((bridge_round setup late started).1 ≡ next_round)
      × ((after.written ≡ []) × (after.frames ≡ 0)))
bridge_loop_timeout_example =
    bridge_loop_timeout setup late good (good ∷ []) started refl refl refl refl refl
