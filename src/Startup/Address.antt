-- ===== src/Startup/Address.antt =====
-- InetAddress (src/net/InetAddress.h, InetAddress.cc). The byte order and the two text conversions of the
-- system are parameters.
use jerry.Base.{
  ℕ, ◌<◌, ◌≡◌, refl, true, false, Bool, ◌&&◌, not, List, [], ◌∷◌, ◌++◌, Option, none, some, ltb,
  arith, if◌then◌else◌,
}
use jerry.Http.Resp.{decimal}

-- The socket address in network byte order.
pub record InetAddress : Type 0 where
  pub sin_port : ℕ
  pub sin_addr : List ℕ

abbrev is_empty : List ℕ → Bool
is_empty [] = true
is_empty (b ∷ bs) = false

abbrev is_read : Option (List ℕ) → Bool
is_read none = false
is_read (some addr) = true

module _ (htons ntohs : ℕ → ℕ) (inet_pton : List ℕ → Option (List ℕ))
    (inet_ntop : List ℕ → List ℕ) where
  -- What `inet_pton` writes into the address, which held zeros.
  abbrev pub sin_addr_of : Option (List ℕ) → List ℕ
  sin_addr_of none = 0 ∷ 0 ∷ 0 ∷ 0 ∷ []
  sin_addr_of (some addr) = addr

  -- What the constructor asserts.
  abbrev pub asserts : List ℕ → ℕ → Bool
  asserts ip port = not (is_empty ip) && ltb 0 port && ltb port 65535 && is_read (inet_pton ip)

  -- The constructor; where the build has assertions, a failed one gives no address.
  unfoldable pub new_address : Bool → List ℕ → ℕ → Option InetAddress
  new_address has_assertions ip port =
      if has_assertions && not (asserts ip port)
      then none
      else some (record { sin_port = htons port; sin_addr = sin_addr_of (inet_pton ip) })

  unfoldable pub get_port : InetAddress → ℕ
  get_port a = ntohs a.sin_port

  unfoldable pub get_ip : InetAddress → List ℕ
  get_ip a = inet_ntop a.sin_addr

  unfoldable pub get_host : InetAddress → List ℕ
  unfolding get_port get_ip
  get_host a = get_ip a ++ b':' ∷ decimal (get_port a)

  -- An address that is made of the text that the system itself prints for it, and of a port from 1 to 65534,
  -- with assertions or without, has that text and that port, and its host is the text, a colon and the port.
  pub get_host-new_address :
      (has_assertions : Bool) (b : ℕ) (bs addr : List ℕ) (port : ℕ)
      → 0 < port
      → port < 65535
      → ntohs (htons port) ≡ port
      → inet_pton (b ∷ bs) ≡ some addr
      → inet_ntop addr ≡ b ∷ bs
      → (a : InetAddress) × (new_address has_assertions (b ∷ bs) port ≡ some a)
        × (get_ip a ≡ b ∷ bs)
        × (get_port a ≡ port)
        × (get_host a ≡ (b ∷ bs) ++ b':' ∷ decimal port)
  unfolding new_address get_host get_port get_ip
  get_host-new_address checks b bs addr port positive small order reads prints = (
    record { sin_port = htons port; sin_addr = addr },
    simp (reads) (ground arith),
    prints,
    order,
    rw (order, prints) refl,
  )

  -- The port 65535 is refused in a build with assertions.
  pub last_port_refused : (ip : List ℕ) → new_address true ip 65535 ≡ none
  unfolding new_address
  last_port_refused ip = ground arith
