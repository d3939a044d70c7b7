-- ===== src/Printer.antt =====
-- The printer of the control side, include/stat_log/util/printer.h and src/printer.cpp: what was
-- gathered for each tag, and what showOutput writes. The variables of the file's unnamed namespace are
-- the fields of `Printer`.
pub mod Text
pub mod Dump
pub mod Displays
pub mod Labels
pub mod Written
pub mod Ranges
pub mod Small
mod Tests
use stat_log.Base.{
  ℕ, zero, suc, ◌+◌, ◌-◌, ◌^◌, Bool, true, false, Option, none, some, List, [], ◌∷◌, ◌++◌, Bytes,
  codes, is_empty, ltb, ◌==◌, if◌then◌else◌, replicate,
}
use stat_log.Command.{StatCmd, StatCmdOutput}

pub record PrintOptions : Type 0 where
  pub array_indices : Bytes

pub record TagInfo : Type 0 where
  pub name : Bytes
  pub tag_index : ℕ
  pub depth : ℕ

pub record StatDisplay : Type 0 where
  pub tag_info : TagInfo
  pub print_options : PrintOptions
  pub stat_output : StatCmdOutput

pub record LogDisplay : Type 0 where
  pub tag_info : TagInfo
  pub log_output : Bytes

pub record Printer : Type 0 where
  pub the_cmd : StatCmd
  pub print_options : PrintOptions
  pub stat_tags : List StatDisplay
  pub log_tags : List LogDisplay
  pub min_tag_depth : ℕ

abbrev pub max_size : ℕ
max_size = 2 ^ 64 - 1

abbrev pub new_printer : Printer
new_printer = record {
  the_cmd = StatCmd.no_cmd;
  print_options = record { array_indices = [] };
  stat_tags = [];
  log_tags = [];
  min_tag_depth = max_size;
}

abbrev pub set_command : Printer → StatCmd → Printer
set_command p cmd = record p { the_cmd = cmd }

abbrev pub set_print_options : Printer → PrintOptions → Printer
set_print_options p o = record p { print_options = o }

-- `removeTag`, for either vector.
unfoldable pub remove_tag : {A : Type 0} → (A → TagInfo) → ℕ → List A → List A
remove_tag info i [] = []
remove_tag info i (e ∷ es) =
    let rest = remove_tag info i es in if (info e).tag_index == i then rest else e ∷ rest

-- `if(tag_info.depth < min_tag_depth) min_tag_depth = tag_info.depth`
unfoldable pub lower_depth : TagInfo → ℕ → ℕ
lower_depth t d = if ltb t.depth d then t.depth else d

unfoldable pub add_stat_output : Printer → TagInfo → StatCmdOutput → Printer
unfolding remove_tag lower_depth
add_stat_output p t out = record p {
  min_tag_depth = lower_depth t p.min_tag_depth;
  stat_tags =
      remove_tag (λ e. e.tag_info) t.tag_index p.stat_tags
      ++ record { tag_info = t; print_options = p.print_options; stat_output = out } ∷ [];
}

unfoldable pub add_log_output : Printer → TagInfo → Bytes → Printer
unfolding remove_tag lower_depth
add_log_output p t out = record p {
  min_tag_depth = lower_depth t p.min_tag_depth;
  log_tags =
      remove_tag (λ e. e.tag_info) t.tag_index p.log_tags
      ++ record { tag_info = t; log_output = out } ∷ [];
}
