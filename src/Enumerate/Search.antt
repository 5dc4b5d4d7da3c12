-- ===== src/Enumerate/Search.antt =====
-- `FindInterface` of lib/bus/include/robobus/network/interface/enumerate_interface.hpp over the bus and
-- the loop that it sleeps on.
use robobus.Base.{
  ℕ, ◌+◌, ◌*◌, ◌<◌, ◌≡◌, refl, ap, ◌∙◌, arith, some, List, [], ◌∷◌, ◌++◌, if◌then◌else◌, length,
  ltb,
}
use mathlib.Core.List.{append-nil}
use robobus.Wire.{Address, broadcast}
use robobus.Device.{get_self_id}
use robobus.Network.{Frame}
use robobus.Runtime.{ResumeRequest, Queue, Loop, process_resume_list, request_resume_at}
use robobus.Runtime.Time.{ticks}
use robobus.Runtime.Resume.{due, request_resume_at-due}
use robobus.Enumerate.State.{Enumerator, Action, transmit}
use robobus.Enumerate.Server.{
  references, respond, handshake, handle_rx_async, begin_find_interface, end_find_interface,
}
use robobus.Enumerate.Bus.{IsAttached, deliver-send}
use robobus.Enumerate.References.{offering, found, found-found}
use robobus.Enumerate.Answers.{
  frames, deliver_frames, AllInTouch, ask_all, all_offers, deliver_frames-append,
  deliver_frames-references, AllInTouch-found, found-IsAttached,
}

-- `FindInterface` up to its sleep of 100 ms, called by a coroutine at the time that the loop shows.
unfoldable pub find_interface :
    {Q H : Type 0}
    → Queue Q (ResumeRequest ℕ H)
    → ℕ
    → ℕ
    → ℕ
    → H
    → Enumerator
    → Loop Q
    → Enumerator × Loop Q × Action
unfolding begin_find_interface
find_interface queue millisecond interface_id now coroutine e l =
    let (e', question) = begin_find_interface interface_id e in
    (e', request_resume_at queue ticks (now + 100 * millisecond) coroutine l, question)

module _ (intf_id : ℕ) where
  abbrev pub question : Enumerator → Frame
  question e = robobus.Network.send e.device e.tx broadcast (0x16 ∷ intf_id ∷ [])

  -- The frames that answer the question.
  all_frames : Address → List Enumerator → List Frame
  all_frames client [] = []
  all_frames client (d ∷ ds) =
      frames (references d client intf_id d.device.interfaces) ++ all_frames client ds

  asked :
      (from : Address) (d : Enumerator)
      → handle_rx_async 0 from (0x16 ∷ intf_id ∷ []) d
        ≡ some (d, references d from intf_id d.device.interfaces)
  unfolding handle_rx_async handshake respond
  asked from d = refl

  ask_all-all_frames :
      (e : Enumerator) (ds : List Enumerator)
      → IsAttached e
      → AllInTouch e intf_id ds
      → ask_all (question e) ds ≡ some (all_frames (get_self_id e.device) ds)
  unfolding ask_all all_frames
  ask_all-all_frames e [] he h = refl
  ask_all-all_frames e (d ∷ ds) he (first, rest) =
      let arrives =
        deliver-send 0 e d broadcast (0x16 ∷ intf_id ∷ []) he first.attached first.ports
          (omega arith) first.asks refl
        ∙ asked (get_self_id e.device) d in
      rw (arrives, ask_all-all_frames e ds he rest) refl

  deliver_frames-all_frames :
      (e : Enumerator) (ds : List Enumerator)
      → IsAttached e
      → AllInTouch e intf_id ds
      → deliver_frames (all_frames (get_self_id e.device) ds) e
        ≡ some (found e (all_offers intf_id ds))
  unfolding all_frames all_offers
  deliver_frames-all_frames e [] he h =
      rw (append-nil e.find_interface_results) (unfold deliver_frames in refl)
  deliver_frames-all_frames e (d ∷ ds) he (first, rest) =
      let here = offering (get_self_id d.device) intf_id d.device.interfaces in
      let more = e.find_interface_results ++ here in
      deliver_frames-append
        (frames (references d (get_self_id e.device) intf_id d.device.interfaces))
        (all_frames (get_self_id e.device) ds) e
      ∙ rw (deliver_frames-references e d intf_id d.device.interfaces he first) (
          deliver_frames-all_frames (found e here) ds (found-IsAttached e here he)
            (AllInTouch-found e intf_id more ds rest)
          ∙ ap some (found-found e here (all_offers intf_id ds)))

  -- `FindInterface` asks the whole bus and sleeps for 100 ms. The answers that the devices on the
  -- bus send come in at the device that asks while its coroutine sleeps: no pass of the loop
  -- resumes it before the 100 ms are over, and any later one does, behind the coroutines that were
  -- due before. It then returns one reference for every port of every device with an interface of
  -- the identifier asked for, and none else, whatever an earlier call left behind. The loop has
  -- room for the request; all the interfaces are registered at one port, with byte-wide addresses,
  -- and no device has the address of the one that asks.
  pub find_interface-all_offers :
      {Q H : Type 0} (queue : Queue Q (ResumeRequest ℕ H)) (millisecond now : ℕ) (coroutine : H)
      (e : Enumerator) (l : Loop Q) (ds : List Enumerator) (t : ℕ)
      → IsAttached e
      → AllInTouch e intf_id ds
      → length (queue.items l.resume_list) < 64
      → let (e1, l1, sent) = find_interface queue millisecond intf_id now coroutine e l in
        let early = ltb t (now + 100 * millisecond) in
        (sent ≡ transmit (question e))
        × ((process_resume_list queue ticks t l1).1
            ≡ due queue ticks t (queue.items l.resume_list)
              ++ (if early then [] else coroutine ∷ []))
        × (fs : List Frame) × (e2 : Enumerator) × (ask_all (question e) ds ≡ some fs)
        × (deliver_frames fs e1 ≡ some e2)
        × ((end_find_interface e2).1 ≡ all_offers intf_id ds)
        × ((end_find_interface e2).0.find_interface_results ≡ [])
  unfolding find_interface end_find_interface
  find_interface-all_offers queue millisecond now coroutine e l ds t he h room =
      let e1 = record e { find_interface_results = [] } in
      let he1 : IsAttached e1 = record {
        self = he.self;
        registered = he.registered;
        byte_addresses = he.byte_addresses;
        byte_port = he.byte_port;
      } in
      (
        refl,
        (request_resume_at-due queue ticks t (now + 100 * millisecond) coroutine l room).0,
        all_frames (get_self_id e.device) ds,
        found e1 (all_offers intf_id ds),
        ask_all-all_frames e ds he h,
        deliver_frames-all_frames e1 ds he1 (AllInTouch-found e intf_id [] ds h),
        refl,
        refl,
      )
