-- ===== src/Receivers.antt =====
-- The inner receivers (src/receivers): their configurations, and the loops that take requests from
-- a channel and hand them to a handler. The handler is a parameter; sync and async variants run the
-- same loop.
pub mod Batch
pub mod Synchronized
pub mod SynchronizedBatched
pub mod Unordered
pub mod UnorderedBatched
use messagebus.Base.{ℕ, Bool, false}

pub record BufferUnorderedConfig : Type 0 where
  pub buffer_size : ℕ
  pub max_parallel : ℕ

pub record BufferUnorderedBatchedConfig : Type 0 where
  pub buffer_size : ℕ
  pub max_parallel : ℕ
  pub batch_size : ℕ
  pub when_ready : Bool

pub record SynchronizedConfig : Type 0 where
  pub buffer_size : ℕ

pub record SynchronizedBatchedConfig : Type 0 where
  pub buffer_size : ℕ
  pub batch_size : ℕ
  pub when_ready : Bool

-- The `Default`s.
abbrev pub default_unordered : BufferUnorderedConfig
default_unordered = record { buffer_size = 8; max_parallel = 8 }

abbrev pub default_unordered_batched : BufferUnorderedBatchedConfig
default_unordered_batched = record {
  buffer_size = 8;
  max_parallel = 2;
  batch_size = 8;
  when_ready = false;
}

abbrev pub default_synchronized : SynchronizedConfig
default_synchronized = record { buffer_size = 1 }

abbrev pub default_synchronized_batched : SynchronizedBatchedConfig
default_synchronized_batched = record { buffer_size = 4; batch_size = 8; when_ready = false }
