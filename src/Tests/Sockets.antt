-- ===== src/Tests/Sockets.antt =====
-- The theorems on opening and accepting sockets at a concrete kernel.
use distributed_memory.Prelude.{
  ◌≡◌, refl, arith, ℤ, pos, negsuc, int_key, ==_iff, Bool, true, false, not, ◌&&◌, ◌||◌, ◌⊎◌, inl,
  inr, some, [], ◌∷◌, ◌==◌, length, take, if◌then◌else◌,
}
use distributed_memory.Socket.{bytes}
use distributed_memory.Socket.Opening.{Kernel, is_error}
use distributed_memory.Socket.Resources.{Descriptors}
use distributed_memory.Secure.Endpoints.{Ssl}
use distributed_memory.Tests.Handshakes.{toy}

-- A process that can have two descriptors open: 3 for a socket that it opens, and 4 for one that it
-- accepts.
pub record Table : Type 0 where
  pub three : Bool
  pub four : Bool

abbrev pub closed : Table
closed = record { three = false; four = false }

opens_three : Table → ℤ × Table
opens_three k = if k.three then (negsuc 0, k) else (pos 3, record k { three = true })

accepts_four : Table → ℤ × Table
accepts_four k = if k.four then (negsuc 0, k) else (pos 4, record k { four = true })

closes : ℤ → Table → Table
closes fd k = record {
  three = if fd == pos 3 then false else k.three;
  four = if fd == pos 4 then false else k.four;
}

-- Each host has one address, and each call succeeds; whoever sends sends the same four bytes.
unfoldable pub small : Kernel Table
unfolding opens_three accepts_four closes
small = record {
  getaddrinfo = λ host port k. (some (port ∷ []), k);
  socket = opens_three;
  bind = λ a fd k. (pos 0, k);
  connect = λ a fd k. (pos 0, k);
  listen = λ fd k. (pos 0, k);
  accept = λ fd k. accepts_four k;
  set_timeout = λ seconds fd k. k;
  send = λ fd bs k. (pos (length bs), k);
  recv = λ fd n k. (bytes (take n (5 ∷ 3 ∷ 4 ∷ 7 ∷ [])), k);
  close = closes;
}

abbrev open_in : Table → ℤ → Bool
open_in k x = (k.three && pos 3 == x) || (k.four && pos 4 == x)

close_three_four :
    (fd : ℤ) (k : Table) (x : ℤ) → open_in (closes fd k) x ≡ (not (fd == x) && open_in k x)
unfolding closes
close_three_four fd k x =
    ground
      (arith, ==_iff fd x, ==_iff (pos 3) x, ==_iff (pos 4) x, ==_iff fd (pos 3), ==_iff fd (pos 4))

-- What opening a descriptor does, for an opener.
abbrev Opens : (Table → ℤ × Table) → Table → Type 0
Opens opener k =
    (((opener k).0 ≡ negsuc 0) × ((x : ℤ) → open_in (opener k).1 x ≡ open_in k x))
    ⊎ ((is_error (opener k).0 ≡ false)
        × (open_in k (opener k).0 ≡ false)
        × ((x : ℤ) → open_in (opener k).1 x ≡ ((opener k).0 == x || open_in k x)))

small-Opens : (b c : Bool) → Opens opens_three (record { three = b; four = c })
unfolding opens_three
small-Opens true c = inl (refl, λ x. refl)
small-Opens false true = inr (refl, refl, λ x. refl)
small-Opens false false = inr (refl, refl, λ x. refl)

or_swap : (a b : Bool) → (a || b) ≡ (b || (a || false))
or_swap true true = refl
or_swap true false = refl
or_swap false true = refl
or_swap false false = refl

small_accepts : (b c : Bool) → Opens accepts_four (record { three = b; four = c })
unfolding accepts_four
small_accepts b true = inl (refl, λ x. refl)
small_accepts true false = inr (refl, refl, λ x. or_swap (pos 3 == x) (pos 4 == x))
small_accepts false false = inr (refl, refl, λ x. or_swap false (pos 4 == x))

pub table : Descriptors small
unfolding small
table = record {
  is_open = open_in;
  socket_opens = λ k. small-Opens k.three k.four;
  getaddrinfo_keeps = λ host port k x. refl;
  bind_keeps = λ a fd k x. refl;
  connect_keeps = λ a fd k x. refl;
  listen_keeps = λ fd k x. refl;
  accept_opens = λ fd k. small_accepts k.three k.four;
  set_timeout_keeps = λ seconds fd k x. refl;
  send_keeps = λ fd bs k x. refl;
  recv_keeps = λ fd n k x. refl;
  close_closes = close_three_four;
}

-- Each file can be read and holds the one key.
unfoldable pub keys : Ssl (Unit {0})
unfolding toy
keys = record {
  fopen = λ path. true;
  read_pubkey = λ path. some tt;
  read_privkey = λ path. some tt;
  key_length = 1;
  crypto = λ e. toy;
  key_length_lem = λ e. refl;
}
