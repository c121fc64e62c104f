-- ===== src/Invocation.antt =====
-- src/Seuss.h: the records that the parts of the program exchange.
use seuss.Prelude.{ℕ, Bool, Bytes}

pub record ExecStats : Type 0 where
  pub run_time : ℕ
  pub init_time : ℕ
  pub status : Bool

pub record InvocationStats : Type 0 where
  pub transaction_id : ℕ
  pub function_id : ℕ
  pub args_size : ℕ
  pub activation_id : Bytes
  pub exec : ExecStats

pub record Invocation : Type 0 where
  pub info : InvocationStats
  pub code : Bytes
  pub args : Bytes
