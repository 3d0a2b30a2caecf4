-- ===== src/Core/Backend.antt =====
-- `crates/routeguard-core/src/backend.rs` and the handle of `tunnel.rs`.
use route_guard.Prelude.{ℕ, Bool, true, false}
use route_guard.Prelude.Text.{Text}

pub data BackendKind : Type 0 where
  wireguard_nt awg : BackendKind

pub data TunnelBackendPreference : Type 0 where
  auto wireguard_nt awg : TunnelBackendPreference

pub data ProfileKind : Type 0 where
  standard awg : ProfileKind

pub record TunnelHandle : Type 0 where
  pub id : ℕ  -- a 128-bit UUID
  pub name : Text
  pub if_index : ℕ  -- u32
  pub if_luid : ℕ  -- u64
  pub backend : BackendKind

pub data TunnelLifecycle : Type 0 where
  disconnected connecting connected reconnecting disconnecting error : TunnelLifecycle

abbrev pub is_awg : BackendKind → Bool
is_awg awg = true
is_awg wireguard_nt = false
