-- ===== src/Wfp.antt =====
-- `crates/routeguard-wfp`: the filters that the service asks the Windows Filtering Platform for. The
-- `windows-wfp` crate is an argument, as are `serde_json` and `std::fs`.
pub mod Filters
pub mod NetworkLock
pub mod SplitTunnel
use route_guard.Prelude.{
  ℕ, Bool, true, false, ◌&&◌, Option, none, some, List, [], ◌∷◌, ◌++◌, not, keep, contains, nat_eq,
  nat_beq, is_none, if◌then◌else◌, ◌≡◌,
}
use route_guard.Prelude.Text.{Text}
use route_guard.Prelude.Result.{Result, ok, err, and_then}
use route_guard.Core.Net.{IpAddr}
use route_guard.Core.Transport.{TransportProtocol}

pub data Action : Type 0 where
  permit_action block_action : Action

pub data FilterWeight : Type 0 where
  user_permit user_block : FilterWeight

-- `windows_wfp::FilterRule`; the direction is always outbound here.
pub record FilterRule (Mask : Type 0) : Type 0 where
  pub name : Text
  pub action : Action
  pub weight : FilterWeight
  pub app_path : Option Text
  pub remote_ip : Option Mask
  pub protocol : Option TransportProtocol
  pub remote_port : Option ℕ  -- u16

-- `windows_wfp::WfpEngine` as a state, `FilterBuilder`, `IpAddrMask`, and `FromStr` of an address.
pub record Platform : Type 1 where
  pub Engine : Type 0
  pub IpAddrMask : Type 0
  pub from_cidr : Text → Option IpAddrMask
  pub new_mask : IpAddr → ℕ → IpAddrMask
  pub parse_ip : Text → Option IpAddr
  pub add_filter : FilterRule IpAddrMask → Engine → Engine × Option ℕ
  pub delete_filter : ℕ → Engine → Engine × Bool

pub data WfpError : Type 0 where
  network_lock_error routing_error : WfpError
  io_error : WfpError

-- `WfpSessionInner`
pub record WfpSessionInner (Engine : Type 0) : Type 0 where
  pub engine : Engine
  pub active_filters : List ℕ

abbrev pub added_at :
    {Mask : Type 0}
    → Option ℕ
    → FilterRule Mask
    → ℕ
    → Option (FilterRule Mask)
    → Option (FilterRule Mask)
added_at none rule id old = old
added_at (some new) rule id old = if nat_beq new id then some rule else old

abbrev pub is_free : {Mask : Type 0} → (ℕ → Option (FilterRule Mask)) → Option ℕ → Bool
is_free filters none = true
is_free filters (some id) = is_none (filters id)

-- What the platform documents of its filters: a filter that is added gets an identifier that is not
-- in use, a filter that is deleted is gone, a call that fails changes nothing.
pub record Laws (wfp : Platform) : Type 0 where
  pub filters : wfp.Engine → ℕ → Option (FilterRule wfp.IpAddrMask)
  pub filters-add_filter :
      (rule : FilterRule wfp.IpAddrMask) (e : wfp.Engine) (id : ℕ)
      → filters (wfp.add_filter rule e).0 id
        ≡ added_at (wfp.add_filter rule e).1 rule id (filters e id)
  pub add_filter-free :
      (rule : FilterRule wfp.IpAddrMask) (e : wfp.Engine)
      → is_free (filters e) (wfp.add_filter rule e).1 ≡ true
  pub filters-delete_filter :
      (gone : ℕ) (e : wfp.Engine) (id : ℕ)
      → filters (wfp.delete_filter gone e).0 id
        ≡ (if (wfp.delete_filter gone e).1 && nat_beq gone id then none else filters e id)
