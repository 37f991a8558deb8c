-- ===== src/Examples/Nodes.antt =====
-- Nodes of blueprints whose actions end, and a manager without authority.
use save_extension.Base.{ℕ, ◌≡◌, refl, true, false, none, some, [], ◌∷◌, nat_eq}
use save_extension.Base.Int.{pos}
use save_extension.SlotInfo.{make_info}
use save_extension.Manager.{Services}
use save_extension.Manager.Results.{is_permitted, expected_save}
use save_extension.Latent.{
  going, continues, failed, GameNode, called, updated, delegated, game_occasion, flag_occasion,
  occasions, on_game_finished,
}
use save_extension.Latent.Outcomes.{
  saves, bp_node, promised, Refused, game_node_lem, flag_node_lem, refused_nodes_lem,
}
use save_extension.Examples.Engines.{numbers}
use save_extension.Examples.Disks.{Disk}
use save_extension.Examples.Managers.{services, fresh, fresh-Inv}

-- a node that is not called yet
abbrev unused : GameNode
unused = record { result = failed; has_action = false }

node_example :
    (occasions game_occasion
        (called ∷ updated ∷ called ∷ delegated (some (make_info (pos 0))) ∷ updated ∷ [])
        unused
      ≡ some (record { result = continues; has_action = false }, continues ∷ []))
    × (occasions game_occasion
          (called
            ∷ updated
            ∷ called
            ∷ delegated (some (make_info (pos 0)))
            ∷ called
            ∷ updated
            ∷ updated
            ∷ [])
          unused
        ≡ some (record { result = going; has_action = true }, []))
unfolding on_game_finished
node_example =
    game_node_lem failed (some (make_info (pos 0))) (updated ∷ called ∷ []) (updated ∷ updated ∷ [])
      (tt, (tt, tt)) (tt, (tt, tt))

flag_example :
    occasions {A = ℕ} flag_occasion
      (called ∷ updated ∷ delegated 5 ∷ called ∷ updated ∷ updated ∷ [])
      (record { given = none; is_finished = true; has_action = false })
    ≡ some (record { given = some 5; is_finished = true; has_action = false }, some 5 ∷ [])
flag_example = flag_node_lem none true 5 (updated ∷ []) (called ∷ []) (tt, tt) (refl, tt)

-- a client, which has no authority
abbrev client : Services numbers Disk Disk
client = record services { game_mode = λ w. some false }

refused_example : Refused client (bp_node client (saves true false) none "one" fresh unused)
unfolding expected_save promised is_permitted
refused_example =
    refused_nodes_lem client (saves true false) none "one" fresh unused fresh-Inv refl refl refl
