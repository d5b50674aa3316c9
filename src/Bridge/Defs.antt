-- ===== src/Bridge/Defs.antt =====
-- The constants of pi/bridge/src/main.rs. Times are in milliseconds.
use beaglewing.Common.{ℕ}

abbrev pub protocol_version : ℕ
protocol_version = 1

abbrev pub max_payload : ℕ
max_payload = 32

abbrev pub heartbeat_timeout : ℕ
heartbeat_timeout = 5000

abbrev pub pointer_center : ℕ
pointer_center = 32768

abbrev pub msg_hello : ℕ
msg_hello = 0x01

abbrev pub msg_hello_ack : ℕ
msg_hello_ack = 0x02

abbrev pub msg_keepalive : ℕ
msg_keepalive = 0x03

abbrev pub msg_key_down : ℕ
msg_key_down = 0x10

abbrev pub msg_key_up : ℕ
msg_key_up = 0x11

abbrev pub msg_key_state : ℕ
msg_key_state = 0x12

abbrev pub msg_pointer_abs : ℕ
msg_pointer_abs = 0x20

abbrev pub msg_pointer_button : ℕ
msg_pointer_button = 0x21

abbrev pub msg_pointer_wheel : ℕ
msg_pointer_wheel = 0x22

abbrev pub msg_release_all : ℕ
msg_release_all = 0x30

abbrev pub msg_get_status : ℕ
msg_get_status = 0x40

abbrev pub msg_status : ℕ
msg_status = 0x41
