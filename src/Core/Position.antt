-- ===== src/Core/Position.antt =====
-- crates/och-core/src/position.rs: producer epochs and sequence numbers.
use open_control_historian.Base.{
  Bool, arith, false, ltb, true, ℕ, ℕ_discrete, ◌&&◌, ◌==◌, ◌||◌, ◌≡◌,
}

pub record ProducerPosition : Type 0 where
  pub epoch : ℕ
  pub sequence : ℕ

pub ProducerPosition-discrete : Discrete ProducerPosition
ProducerPosition-discrete = hlevel ℕ_discrete

-- The derived order: by epoch, then by sequence number.
abbrev pub position_lt : ProducerPosition → ProducerPosition → Bool
position_lt a b = ltb a.epoch b.epoch || (a.epoch == b.epoch) && ltb a.sequence b.sequence

pub position_lt_trans :
    (a b c : ProducerPosition)
    → position_lt a b ≡ true
    → position_lt b c ≡ true
    → position_lt a c ≡ true
position_lt_trans a b c h k = ground arith

pub position_lt_irrefl : (a : ProducerPosition) → position_lt a a ≡ false
position_lt_irrefl a = ground arith

pub position_lt_asym : (a b : ProducerPosition) → position_lt a b ≡ true → position_lt b a ≡ false
position_lt_asym a b h = ground arith
