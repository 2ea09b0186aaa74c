-- ===== src/Socks.antt =====
-- socks.rs: the client side of a SOCKS4 or SOCKS5 connection as a state machine over four buffers.
-- The wire formats of SOCKS5 come from the crate socks5_impl, and are parameters.
pub mod Handshake
pub mod Relay
pub mod Order
pub mod Handler
pub mod Opening
pub mod Talk
pub mod Session
use mathlib.Core.Option.{IsNone}
use tun2proxy.Maps.{is_none}
use mathlib.Core.Option
use tun2proxy.Prelude.{
  ◌==◌, bytes_eq, ℕ, zero, suc, ◌+◌, ◌-◌, ◌/◌, ◌%◌, ◌≡◌, ◌≤◌, refl, Bool, true, false, ◌&&◌, ◌||◌,
  not, Option, none, some, List, [], ◌∷◌, ◌++◌, Result, ok, err, length, drop, get_or, eqb, ltb,
  leb, if◌then◌else◌,
}
use tun2proxy.Ip.{IpAddr, v4, v6, octets}
use tun2proxy.Proxy.{
  Bytes, SocketAddr, SessionInfo, UserKey, IncomingDirection, from_server, from_client,
  OutgoingDirection, to_server, to_client,
}

pub data SocksState : Type 0 where
  client_hello server_hello send_auth_data receive_auth_response send_request : SocksState
  receive_response established : SocksState

pub data Version : Type 0 where
  socks4 socks5 : Version

abbrev pub version_byte : Version → ℕ
version_byte socks4 = 4
version_byte socks5 = 5

pub data Command : Type 0 where
  connect bind_port udp_associate : Command

-- The crate's addresses: a socket address, or a domain with a port.
pub data Address : Type 0 where
  socket_address : SocketAddr → Address
  domain_address : Bytes → ℕ → Address

-- Reading a message from a buffer: an end of the input too early, another error, or the message
-- and its length.
pub data Retrieved (A : Type 0) : Type 0 where
  unexpected_eof : Retrieved A
  malformed : Retrieved A
  retrieved : A → ℕ → Retrieved A

-- The messages of socks5_impl, and the texts of addresses and numbers. A message that was read
-- lies in the buffer.
pub record Protocol : Type 0 where
  pub handshake_request : List ℕ → Bytes
  pub handshake_response : Bytes → Retrieved ℕ
  pub password_request : Bytes → Bytes → Bytes
  pub password_response : Bytes → Retrieved Bool
  pub request : Command → Address → Bytes
  pub response : Bytes → Retrieved (Bool × Address)
  pub try_socket_addr : Address → Option SocketAddr
  pub ip_text : IpAddr → Bytes
  pub number_text : ℕ → Bytes
  pub handshake_response-length :
      (bs : Bytes) (m n : ℕ) → handshake_response bs ≡ retrieved m n → n ≤ length bs
  pub password_response-length :
      (bs : Bytes) (b : Bool) (n : ℕ) → password_response bs ≡ retrieved b n → n ≤ length bs
  pub response-length :
      (bs : Bytes) (r : Bool × Address) (n : ℕ) → response bs ≡ retrieved r n → n ≤ length bs

-- `out_of_fuel` is the model's own.
pub data Error : Type 0 where
  ipv6_not_supported unexpected_reply_code unsupported_auth_method auth_failed : Error
  connection_failed malformed_message no_socket_address out_of_fuel : Error

pub record SocksProxyImpl : Type 0 where
  pub server_addr : SocketAddr
  pub info : SessionInfo
  pub domain_name : Option Bytes
  pub state : SocksState
  pub client_inbuf : Bytes
  pub server_inbuf : Bytes
  pub client_outbuf : Bytes
  pub server_outbuf : Bytes
  pub version : Version
  pub credentials : Option UserKey
  pub command : Command
  pub udp_associate : Option SocketAddr

-- A method's new state and its result.
abbrev pub Outcome : Type 0
Outcome = SocksProxyImpl × Result Error Unit

-- `self.server_outbuf.extend(bytes)`
abbrev pub send : SocksProxyImpl → Bytes → SocksProxyImpl
send s bytes = record s { server_outbuf = s.server_outbuf ++ bytes }

-- The address field of a SOCKS4 request, and the name that follows the user.
socks4_host : SocketAddr → Option Bytes → Option (Bytes × Bytes)
socks4_host addr domain = elim addr.ip [
  | v6 a ↦ none
  | v4 a ↦ elim domain [
    | some host ↦ some (0 ∷ 0 ∷ 0 ∷ (length host % 256) ∷ [], host ++ 0 ∷ [])
    | none ↦ some (octets 4 a, [])
  ]
]

is_empty : Bytes → Bool
is_empty [] = true
is_empty (b ∷ bs) = false

socks4_user : Option UserKey → Bytes
unfolding is_empty
socks4_user none = []
socks4_user (some c) = c.username ++ (if is_empty c.password then [] else b':' ∷ c.password)

unfoldable pub send_client_hello_socks4 : SocksProxyImpl → Outcome
unfolding socks4_host socks4_user octets
send_client_hello_socks4 s =
    let s' = send s (version_byte s.version ∷ 1 ∷ octets 2 s.info.dst.port) in
    elim (socks4_host s.info.dst s.domain_name) [
      | none ↦ (s', err ipv6_not_supported)
      | some (ip_vec, name_vec) ↦
          (send s' (ip_vec ++ (socks4_user s.credentials ++ (0 ∷ name_vec))), ok tt)
    ]

abbrev pub no_auth : ℕ
no_auth = 0

abbrev pub user_pass : ℕ
user_pass = 2

abbrev pub methods : Option UserKey → List ℕ
methods none = no_auth ∷ 4 ∷ 100 ∷ []
methods (some c) = no_auth ∷ 4 ∷ 100 ∷ user_pass ∷ []

-- `username.ends_with("+info")`, with the text before the marker.
info_marker : Bytes
info_marker = b'+' ∷ b'i' ∷ b'n' ∷ b'f' ∷ b'o' ∷ []

strip_marker : Bytes → Option Bytes
strip_marker [] = none
strip_marker (b ∷ bs) =
    let rest = strip_marker bs in
    if (b ∷ bs) == info_marker then some [] else Option.map (◌∷◌ b) rest

abbrev protocol_text : Command → Bytes
protocol_text connect = b't' ∷ b'c' ∷ b'p' ∷ []
protocol_text udp_associate = b'u' ∷ b'd' ∷ b'p' ∷ []
protocol_text bind_port = b'u' ∷ b'n' ∷ b'k' ∷ b'n' ∷ b'o' ∷ b'w' ∷ b'n' ∷ []

-- `UserKey::default()` where there are no credentials
abbrev credentials_or_default : Option UserKey → UserKey
credentials_or_default none = record { username = []; password = [] }
credentials_or_default (some c) = c

module _ (P : Protocol) where
  open P use {
    handshake_request, handshake_response, password_request, password_response, request, response,
    try_socket_addr, ip_text, number_text,
  }

  unfoldable pub send_client_hello_socks5 : SocksProxyImpl → Outcome
  send_client_hello_socks5 s = (send s (handshake_request (methods s.credentials)), ok tt)

  greet : Version → SocksProxyImpl → Outcome
  greet socks4 s = send_client_hello_socks4 s
  greet socks5 s = send_client_hello_socks5 s

  unfoldable pub send_client_hello : SocksProxyImpl → Outcome
  unfolding greet
  send_client_hello s =
      let (s', r) = greet s.version s in
      elim r [ err e ↦ (s', err e) | ok _ ↦ (record s' { state = server_hello }, ok tt) ]

  unfoldable pub new :
      SocketAddr
      → SessionInfo
      → Option Bytes
      → Option UserKey
      → Version
      → Command
      → Result Error SocksProxyImpl
  new server_addr info domain_name credentials version command =
      let (s, r) = send_client_hello (record {
        server_addr = server_addr;
        info = info;
        domain_name = domain_name;
        state = client_hello;
        client_inbuf = [];
        server_inbuf = [];
        client_outbuf = [];
        server_outbuf = [];
        version = version;
        credentials = credentials;
        command = command;
        udp_associate = none;
      }) in
      elim r [ ok _ ↦ ok s | err e ↦ err e ]

  -- In the handlers below `go_on` is the call of `state_change` that ends them.
  module _ (go_on : SocksProxyImpl → Outcome) where
    unfoldable pub receive_server_hello_socks4 : SocksProxyImpl → Outcome
    receive_server_hello_socks4 s =
        if ltb (length s.server_inbuf) 8
        then (s, ok tt)
        else if not (eqb (get_or s.server_inbuf 1 0) 0x5a)
        then (s, err unexpected_reply_code)
        else go_on (record s { server_inbuf = drop 8 s.server_inbuf; state = established })

    -- What the client does with the method that the server chose.
    choose_method : SocksProxyImpl → ℕ → Outcome
    choose_method s auth_method =
        if (not (eqb auth_method no_auth) && is_none s.credentials)
          || ((not (eqb auth_method no_auth) && not (eqb auth_method user_pass))
              && not (is_none s.credentials))
        then (s, err unsupported_auth_method)
        else go_on (record s {
          state = if eqb auth_method user_pass then send_auth_data else send_request;
        })

    unfoldable pub receive_server_hello_socks5 : SocksProxyImpl → Outcome
    unfolding choose_method
    receive_server_hello_socks5 s = elim (handshake_response s.server_inbuf) [
      | unexpected_eof ↦ (s, ok tt)
      | malformed ↦ (s, err malformed_message)
      | retrieved auth_method n ↦
          choose_method (record s { server_inbuf = drop n s.server_inbuf }) auth_method
    ]

    unfoldable pub receive_server_hello : Version → SocksProxyImpl → Outcome
    receive_server_hello socks4 s = receive_server_hello_socks4 s
    receive_server_hello socks5 s = receive_server_hello_socks5 s

    unfoldable pub receive_auth_data : SocksProxyImpl → Outcome
    receive_auth_data s = elim (password_response s.server_inbuf) [
      | unexpected_eof ↦ (s, ok tt)
      | malformed ↦ (s, err malformed_message)
      | retrieved succeeded n ↦
          let s' = record s { server_inbuf = drop n s.server_inbuf } in
          if succeeded then go_on (record s' { state = send_request }) else (s', err auth_failed)
    ]

    -- The address that an accepted UDP association names.
    associate : SocksProxyImpl → Command → Address → Outcome
    associate s udp_associate address = elim (try_socket_addr address) [
      | none ↦ (s, err no_socket_address)
      | some a ↦ go_on (record s { udp_associate = some a; state = established })
    ]
    associate s connect address = go_on (record s { state = established })
    associate s bind_port address = go_on (record s { state = established })

    unfoldable pub receive_connection_status : SocksProxyImpl → Outcome
    unfolding associate
    receive_connection_status s = elim (response s.server_inbuf) [
      | unexpected_eof ↦ (s, ok tt)
      | malformed ↦ (s, err malformed_message)
      | retrieved (succeeded, address) n ↦
          let s' = record s { server_inbuf = drop n s.server_inbuf } in
          if succeeded then associate s' s'.command address else (s', err connection_failed)
    ]

  unfoldable pub user_name : SocksProxyImpl → Bytes
  unfolding strip_marker info_marker
  user_name s =
      let name = (credentials_or_default s.credentials).username in
      elim (strip_marker name) [
        | none ↦ name
        | some base ↦
            base
            ++ (b'|' ∷ protocol_text s.command
                ++ (b'|' ∷ ip_text s.info.src.ip ++ (b'|' ∷ number_text s.info.src.port)))
      ]

  unfoldable pub send_auth : SocksProxyImpl → Outcome
  unfolding user_name
  send_auth s = (
    record (send s
        (password_request (user_name s) (credentials_or_default s.credentials).password)) {
          state = receive_auth_response;
        },
    ok tt,
  )

  pub target : Command → Option Bytes → SocketAddr → Address
  target udp_associate domain dst = socket_address (record { ip = v4 0; port = 0 })
  target _ (some domain) dst = domain_address domain dst.port
  target _ none dst = socket_address dst

  unfoldable pub send_request_socks5 : SocksProxyImpl → Outcome
  unfolding target
  send_request_socks5 s = (
    record (send s (request s.command (target s.command s.domain_name s.info.dst))) {
      state = receive_response;
    },
    ok tt,
  )

  unfoldable pub relay_traffic : SocksProxyImpl → Outcome
  relay_traffic s = (
    record s {
      client_outbuf = s.client_outbuf ++ s.server_inbuf;
      server_outbuf = s.server_outbuf ++ s.client_inbuf;
      server_inbuf = [];
      client_inbuf = [];
    },
    ok tt,
  )

  -- One dispatch on the state.
  unfoldable pub dispatch : (SocksProxyImpl → Outcome) → SocksState → SocksProxyImpl → Outcome
  dispatch go_on client_hello s = (s, ok tt)
  dispatch go_on server_hello s = receive_server_hello go_on s.version s
  dispatch go_on send_auth_data s = send_auth s
  dispatch go_on receive_auth_response s = receive_auth_data go_on s
  dispatch go_on send_request s = send_request_socks5 s
  dispatch go_on receive_response s = receive_connection_status go_on s
  dispatch go_on established s = relay_traffic s

  -- The handlers and `state_change` call one another; each handler advances the state first.
  unfoldable pub state_change : ℕ → SocksProxyImpl → Outcome
  state_change zero s = (s, err out_of_fuel)
  state_change (suc fuel) s = dispatch (state_change fuel) s.state s

  unfoldable pub receive : IncomingDirection → SocksProxyImpl → Bytes → SocksProxyImpl
  receive from_server s buffer = record s { server_inbuf = s.server_inbuf ++ buffer }
  receive from_client s buffer = record s { client_inbuf = s.client_inbuf ++ buffer }

  unfoldable pub push_data : SocksProxyImpl → IncomingDirection → Bytes → Outcome
  unfolding receive
  push_data s direction buffer = state_change 2 (receive direction s buffer)

-- `drain(0..size)` panics past the end, which is `none`.
unfoldable pub consume_data : SocksProxyImpl → OutgoingDirection → ℕ → Option SocksProxyImpl
consume_data s to_server size =
    if leb size (length s.server_outbuf)
    then some (record s { server_outbuf = drop size s.server_outbuf })
    else none
consume_data s to_client size =
    if leb size (length s.client_outbuf)
    then some (record s { client_outbuf = drop size s.client_outbuf })
    else none

unfoldable pub peek_data : SocksProxyImpl → OutgoingDirection → Bytes
peek_data s to_server = s.server_outbuf
peek_data s to_client = s.client_outbuf

unfoldable pub data_len : SocksProxyImpl → OutgoingDirection → ℕ
data_len s to_server = length s.server_outbuf
data_len s to_client = length s.client_outbuf

pub is_established : SocksState → Bool
is_established established = true
is_established _ = false

unfoldable pub connection_established : SocksProxyImpl → Bool
unfolding is_established
connection_established s = is_established s.state
