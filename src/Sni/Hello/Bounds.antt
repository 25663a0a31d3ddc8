-- ===== src/Sni/Hello/Bounds.antt =====
-- The fuel and the indices of the search for the name in crates/sleepytale/src/sni.rs.
use sleepytale.Base.{
  ℕ, zero, suc, ◌+◌, ◌≤◌, ◌<◌, Bool, true, false, length, arith, if◌then◌else◌, ◌==◌,
}
use sleepytale.Base.Bytes.{Bytes}
use sleepytale.Base.Outcome.{Outcome, refuse}
use sleepytale.Base.Safe.{Safe, Any, Safe-bind, Safe-require, Safe-weaken, try-Safe, Safe-while_let}
use sleepytale.Sni.Reader.{Reader, new, u8, u16, u24, take, skip}
use sleepytale.Sni.Reader.Bounds.{
  After, Took, Sliced, u8-Safe, u16-Safe, u24-Safe, take-Safe, skip-Safe,
}
use sleepytale.Sni.Utf8.{from_utf8}
use sleepytale.Sni.Hello.{
  find_host_name, server_name_list, find_server_name, skip_to_extensions, client_hello_server_name,
}

if_Safe : (b : Bool) (m k : Outcome Bytes) → Safe Any m → Safe Any k → Safe Any (if b then m else k)
if_Safe true m k s t = s
if_Safe false m k s t = t

pub find_host_name-Safe :
    (fuel : ℕ) (r : Reader)
    → 1 ≤ fuel
    → length r.bytes < r.at + fuel
    → Safe Any (find_host_name fuel r)
unfolding find_host_name
find_host_name-Safe zero r some_fuel enough = absurd (omega arith)
find_host_name-Safe (suc fuel) r some_fuel enough =
    Safe-while_let (Took 1 r) Any (u8 r) refuse _ (u8-Safe r) tt λ x h.
      Safe-bind (Took 2 x.1) Any (u16 x.1) _ (u16-Safe x.1) λ y k.
        Safe-bind (Sliced y.0 y.1) Any (take y.1 y.0) _ (take-Safe y.1 y.0) λ z l.
          if_Safe _ _ (find_host_name fuel z.1) (try-Safe Any (from_utf8 z.0) λ name e. tt)
            (find_host_name-Safe fuel z.1 (omega arith) (rw l.0.0 (rw k.0 (rw h.0 (omega arith)))))

server_name_list-Safe : (body : Bytes) → Safe Any (server_name_list body)
unfolding server_name_list new
server_name_list-Safe body =
    Safe-bind (Took 2 (new body)) Any (u16 (new body)) _ (u16-Safe (new body)) λ x h.
      Safe-bind (Sliced x.0 x.1) Any (take x.1 x.0) _ (take-Safe x.1 x.0)
        λ y k. find_host_name-Safe (suc (length y.0)) (new y.0) (omega arith) (omega arith)

pub find_server_name-Safe :
    (fuel : ℕ) (r : Reader)
    → 1 ≤ fuel
    → length r.bytes < r.at + fuel
    → Safe Any (find_server_name fuel r)
unfolding find_server_name
find_server_name-Safe zero r some_fuel enough = absurd (omega arith)
find_server_name-Safe (suc fuel) r some_fuel enough =
    Safe-while_let (Took 2 r) Any (u16 r) refuse _ (u16-Safe r) tt λ x h.
      Safe-bind (Took 2 x.1) Any (u16 x.1) _ (u16-Safe x.1) λ y k.
        Safe-bind (Sliced y.0 y.1) Any (take y.1 y.0) _ (take-Safe y.1 y.0) λ z l.
          if_Safe (x.0 == 0) (server_name_list z.0) (find_server_name fuel z.1)
            (server_name_list-Safe z.0)
            (find_server_name-Safe fuel z.1 (omega arith)
              (rw l.0.0 (rw k.0 (rw h.0 (omega arith)))))

skip_to_extensions-Safe : (r : Reader) → Safe (λ (_ : Reader). Unit {0}) (skip_to_extensions r)
unfolding skip_to_extensions
skip_to_extensions-Safe r = Safe-bind (After 34 r) Any (skip r (2 + 32)) _ (skip-Safe r 34) λ r1 h1.
    Safe-bind (Took 1 r1) Any (u8 r1) _ (u8-Safe r1) λ x h2.
      Safe-bind (After x.0 x.1) Any (skip x.1 x.0) _ (skip-Safe x.1 x.0) λ r3 h3.
        Safe-bind (Took 2 r3) Any (u16 r3) _ (u16-Safe r3) λ y h4.
          Safe-bind (After y.0 y.1) Any (skip y.1 y.0) _ (skip-Safe y.1 y.0) λ r5 h5.
            Safe-bind (Took 1 r5) Any (u8 r5) _ (u8-Safe r5)
              λ z h6. Safe-weaken (After z.0 z.1) Any (skip z.1 z.0) (skip-Safe z.1 z.0) λ r7 h7. tt

pub client_hello_server_name-Safe :
    (handshake : Bytes) → Safe (λ (_ : Bytes). Unit {0}) (client_hello_server_name handshake)
unfolding client_hello_server_name new
client_hello_server_name-Safe d =
    Safe-bind (Took 1 (new d)) Any (u8 (new d)) _ (u8-Safe (new d)) λ x h1.
      Safe-require Any (x.0 == 0x01) _ λ hello.
        Safe-bind (Took 3 x.1) Any (u24 x.1) _ (u24-Safe x.1) λ y h2.
          Safe-bind (Sliced y.0 y.1) Any (take y.1 y.0) _ (take-Safe y.1 y.0) λ body h3.
            Safe-bind Any Any (skip_to_extensions (new body.0)) _
              (skip_to_extensions-Safe (new body.0))
              λ r4 h4. Safe-bind (Took 2 r4) Any (u16 r4) _ (u16-Safe r4) λ z h5.
                Safe-bind (Sliced z.0 z.1) Any (take z.1 z.0) _ (take-Safe z.1 z.0) λ ext h6.
                  find_server_name-Safe (suc (length ext.0)) (new ext.0) (omega arith) (omega arith)
