-- ===== src/Enumerate/Wakeup.antt =====
-- `AwaitEnumerated` of lib/bus/include/robobus/network/interface/enumerate_interface.hpp with its
-- resumer, of lib/runtime/include/robobus/runtime/lazy_resumer.hpp, and the loop of loop.hpp.
use robobus.Base.{
  ℕ, ◌<◌, ◌≡◌, ◌≢◌, refl, false, Option, none, some, List, [], ◌∷◌, ◌++◌, length, ◌>>=◌,
}
use robobus.Wire.{Address}
use robobus.Device.{not_initialized, initialized, get_self_id}
use robobus.Runtime.{ResumeRequest, Queue, Clock, Loop, process_resume_list}
use robobus.Runtime.Resume.{due}
use robobus.Awaiting.{
  LazyResumer, associate_loop, await_ready, await_suspend, await_resume, resume_lazily,
}
use robobus.Awaiting.Lazy.{resume_lazily-delivers}
use robobus.Enumerate.State.{Enumerator, Action, transmit, device_found, resume}
use robobus.Enumerate.Server.{await_enumerated}
use robobus.Enumerate.Bus.{IsAttached, deliver}
use robobus.Enumerate.Handshake.{give_frame, offered, settled}
use robobus.Enumerate.Awaited.{with_waiter, await_enumerated-address}

-- What a coroutine that is suspended in `AwaitEnumerated` has done to `on_enumerate_finished_`.
unfoldable pub begin_wait : {H : Type 0} → H → LazyResumer Address H → LazyResumer Address H
begin_wait h r = await_suspend h (associate_loop r)

module _ {Q P H : Type 0} (queue : Queue Q (ResumeRequest P H)) (clock : Clock P) where
  -- What a handler does to `on_enumerate_finished_` and its loop.
  unfoldable pub perform :
      P → List Action → LazyResumer Address H → Loop Q → Option (LazyResumer Address H × Loop Q)
  perform now [] r loop = some (r, loop)
  perform now (transmit f ∷ rest) r loop = perform now rest r loop
  perform now (device_found a ∷ rest) r loop = perform now rest r loop
  perform now (resume a ∷ rest) r loop =
      resume_lazily queue clock now a r loop >>= λ x. perform now rest x.0 x.1

  -- A coroutine that awaits `AwaitEnumerated` on a device without an address, as the first to do so,
  -- is suspended. The handler that gets the last frame of the handshake hands it over to the loop,
  -- whose next pass at that moment resumes it, behind those that were due before, with the address
  -- that the root gives out, by which the device goes from then on; and nobody waits any more. To
  -- await `AwaitEnumerated` on this device after that is undefined, as the awaiter reads a promise
  -- that is gone. The loop has room; the other conditions are those of the handshake.
  pub await_enumerated-resumed :
      (now : P) (h : H) (resumer : LazyResumer Address H) (loop : Loop Q) (random : ℕ)
      (r d : Enumerator)
      → length (queue.items loop.resume_list) < 64
      → IsAttached r
      → IsAttached d
      → r.tx.port ≡ d.tx.port
      → r.device.state ≡ initialized
      → d.device.state ≡ not_initialized
      → d.waiter_available ≡ false
      → random < 256
      → r.device.self.id < 128
      → r.device.self.id ≢ d.device.self.id
      → let after = settled r.next_device_id (offered random (with_waiter d)) in
        (await_enumerated d ≡ some (with_waiter d))
        × (actions : List Action) × (resumer' : LazyResumer Address H) × (loop' : Loop Q) × (deliver
              random
              (give_frame random r)
              (offered random (with_waiter d))
            ≡ some (after, actions))
        × (perform now actions (begin_wait h resumer) loop ≡ some (resumer', loop'))
        × ((process_resume_list queue clock now loop').1
            ≡ due queue clock now (queue.items loop.resume_list) ++ h ∷ [])
        × (await_resume resumer' ≡ some r.next_device_id)
        × (await_ready resumer' ≡ after.waiter_available)
        × (get_self_id after.device ≡ r.next_device_id)
        × (await_enumerated after ≡ none)
  unfolding perform begin_wait
  await_enumerated-resumed now h resumer loop random r d room hr hd ports ready fresh alone byte low
        apart =
      let (suspends, arrives, named, undefined) =
        await_enumerated-address random r d hr hd ports ready fresh alone byte low apart in
      let (resumer', loop', handed, passed, value, idle, _, _) =
        resume_lazily-delivers queue clock now h r.next_device_id r.next_device_id resumer loop
          room in
      (
        suspends,
        resume r.next_device_id ∷ [],
        resumer',
        loop',
        arrives,
        rw handed refl,
        passed,
        value,
        idle,
        named,
        undefined,
      )
