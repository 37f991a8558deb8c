-- ===== src/Disk/Paths.antt =====
-- Two slots have two files, and no thumbnail is one of them.
use Prim.Native.String.{count, ◌++◌ as append_text}
use text.Mathlib.TextLemmas.{append_cancel_left, append_cancel_right, append_inj, length-append}
use save_extension.Base.{◌≡◌, ◌≢◌, String, arith, eq_iff, string_eq, false≢true, sym, ap}
use save_extension.Disk.{get_slot_path, get_thumbnail_path, get_save_folder}

pub get_slot_path_injective : (dir a b : String) → get_slot_path dir a ≡ get_slot_path dir b → a ≡ b
unfolding get_slot_path
get_slot_path_injective dir a b e =
    append_cancel_right a b ".sav" (append_cancel_left (get_save_folder dir) _ _ e)

extensions_differ : (a b : String) → append_text a ".sav" ≢ append_text b ".png"
extensions_differ a b e =
    let counts : count a ≡ count b =
      omega (arith, ap count e, length-append a ".sav", length-append b ".png") in
    false≢true ((eq_iff ".sav" ".png").1 (append_inj e counts).1)

pub thumbnail-ne-slot : (dir a b : String) → get_thumbnail_path dir b ≢ get_slot_path dir a
unfolding get_slot_path get_thumbnail_path
thumbnail-ne-slot dir a b e =
    extensions_differ a b (sym (append_cancel_left (get_save_folder dir) _ _ e))

pub get_thumbnail_path_filled : (dir a : String) → get_thumbnail_path dir a ≢ ""
unfolding get_thumbnail_path
get_thumbnail_path_filled dir a e =
    let size : count (append_text (get_save_folder dir) (append_text a ".png")) ≡ 0 = ap count e in
    absurd (
      omega (
        arith,
        size,
        length-append (get_save_folder dir) (append_text a ".png"),
        length-append a ".png",
      ))
