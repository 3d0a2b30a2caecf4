-- ===== src/Core/Net.antt =====
-- Addresses of `std::net`, and what the program takes from outside its own sources: the `ipnet`
-- crate, Unicode lower case, and the file system's view of a path.
use route_guard.Prelude.{
  ℕ, ◌≡◌, ◌↔◌, Bool, true, false, Option, nat_beq, nat_beq_iff, Eq, arith, ◌&&◌,
}
use route_guard.Prelude.Text.{Text}

pub data IpAddr : Type 0 where
  v4 : ℕ → IpAddr
  v6 : ℕ → IpAddr

pub record SocketAddr : Type 0 where
  pub ip : IpAddr
  pub port : ℕ  -- u16

abbrev pub ip_beq : IpAddr → IpAddr → Bool
ip_beq (v4 a) (v4 b) = nat_beq a b
ip_beq (v6 a) (v6 b) = nat_beq a b
ip_beq _ _ = false

pub ip_beq_iff : (a b : IpAddr) → (ip_beq a b ≡ true) ↔ (a ≡ b)
ip_beq_iff (v4 a) (v4 b) = ground (arith, nat_beq_iff a b)
ip_beq_iff (v6 a) (v6 b) = ground (arith, nat_beq_iff a b)
ip_beq_iff (v4 a) (v6 b) = ground arith
ip_beq_iff (v6 a) (v4 b) = ground arith

instance abbrev pub ip_eq : Eq IpAddr
ip_eq = record { beq = ip_beq; beq_iff = ip_beq_iff }

abbrev pub socket_beq : SocketAddr → SocketAddr → Bool
socket_beq a b = ip_beq a.ip b.ip && nat_beq a.port b.port

-- Paths are the texts that `to_string_lossy` gives.
abbrev pub FilePath : Type 0
FilePath = Text

pub record Platform : Type 1 where
  -- `ipnet::IpNet` with its `FromStr`, `contains`, `Display` and `From<IpAddr>`
  pub IpNet : Type 0
  pub parse_net : Text → Option IpNet
  pub net_contains : IpNet → IpAddr → Bool
  pub net_text : IpNet → Text
  pub net_of_ip : IpAddr → IpNet
  -- `str::to_lowercase`, over all of Unicode
  pub to_lowercase : Text → Text
  -- `Path::is_absolute` and `Path::exists`
  pub is_absolute : FilePath → Bool
  pub exists : FilePath → Bool
