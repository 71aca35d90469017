-- ===== src/Socket.antt =====
-- include/dm/socket/socket.h, and the calls of src/socket/socket.cpp on a connected socket that
-- src/socket/secure_socket.cpp builds on. The system calls on a connection are the parameter `Os`, with
-- the state `W` of the connection.
pub mod Scripts
pub mod Texts
pub mod Opening
pub mod Resources
pub mod Peers
use distributed_memory.Prelude.{
  ℕ, ℤ, pos, negsuc, int_key, Bool, false, not, List, ◌==◌, length, replicate,
}

-- `sockaddr_in`: the bytes of the address and of the port, in the order of the network.
pub record Peer : Type 0 where
  pub sin_addr : List ℕ
  pub sin_port : List ℕ

pub record Socket : Type 0 where
  pub sockfd : ℤ
  pub peer_addr : Peer
  pub peer_valid : Bool

-- Socket::Socket
abbrev pub create : Socket
create = record {
  sockfd = negsuc 0;
  peer_addr = record { sin_addr = replicate 4 0; sin_port = replicate 2 0 };
  peer_valid = false;
}

-- Socket::is_valid
abbrev pub is_valid : Socket → Bool
is_valid s = not (s.sockfd == negsuc 0)

-- What `::recv` returns: -1, or the bytes that it has put into the buffer; none of them if the peer
-- has closed the connection.
pub data Received : Type 0 where
  failed : Received
  bytes : List ℕ → Received

pub record Os (W : Type 0) : Type 0 where
  -- `::send`, with the number of bytes sent or -1
  pub send_bytes : List ℕ → W → ℤ × W
  -- `::recv` of at most so many bytes
  pub recv_bytes : ℕ → W → Received × W

-- Socket::send
unfoldable pub send : {W : Type 0} → Os W → List ℕ → W → Bool × W
send os bs w = let (status, w') = os.send_bytes bs w in (status == pos (length bs), w')

-- Socket::recv
unfoldable pub recv : {W : Type 0} → Os W → ℕ → W → Received × W
recv os maxsize w = os.recv_bytes maxsize w
