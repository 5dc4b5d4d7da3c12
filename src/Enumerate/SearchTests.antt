-- ===== src/Enumerate/SearchTests.antt =====
-- The root asks a device for its enumeration interface.
use robobus.Base.{◌+◌, ◌*◌, ◌≡◌, refl, arith, some, List, [], ◌∷◌, ◌++◌, if◌then◌else◌, ltb}
use robobus.Wire.{address}
use robobus.Device.{get_self_id}
use robobus.Network.{Frame}
use robobus.Runtime.{Loop, process_resume_list}
use robobus.Runtime.Resume.{due}
use robobus.Runtime.Sample.{Request, list_queue, busy_loop, ticks}
use robobus.Enumerate.State.{Enumerator, Action, transmit}
use robobus.Enumerate.Server.{end_find_interface}
use robobus.Enumerate.Sample.{root_node, far_node, root_node-IsAttached, far_node-AreInTouch}
use robobus.Enumerate.Answers.{deliver_frames, ask_all, all_offers}
use robobus.Enumerate.Search.{find_interface, question, find_interface-all_offers}

-- The root with its loop, after the call.
abbrev asking : Enumerator × Loop (List Request) × Action
asking = find_interface list_queue 1 0 7 4 root_node busy_loop

find_interface-all_offers_example :
    (asking.2 ≡ transmit (question 0 root_node))
    × ((process_resume_list list_queue ticks 110 asking.1).1
        ≡ due list_queue ticks 110 busy_loop.resume_list
          ++ (if ltb 110 (7 + 100 * 1) then [] else 4 ∷ []))
    × (fs : List Frame) × (e : Enumerator) × (ask_all (question 0 root_node) (far_node ∷ [])
        ≡ some fs)
    × (deliver_frames fs asking.0 ≡ some e)
    × ((end_find_interface e).1 ≡ all_offers 0 (far_node ∷ []))
    × ((end_find_interface e).0.find_interface_results ≡ [])
find_interface-all_offers_example =
    find_interface-all_offers 0 list_queue 1 7 4 root_node busy_loop (far_node ∷ []) 110
      root_node-IsAttached (far_node-AreInTouch, tt) (omega arith)

all_offers_far : all_offers 0 (far_node ∷ []) ≡ record { dev = address 5; port = 0 } ∷ []
unfolding all_offers get_self_id robobus.Enumerate.References.offering
all_offers_far = refl
