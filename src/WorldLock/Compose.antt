-- ===== src/WorldLock/Compose.antt =====
-- crates/ovid-world/src/lib.rs: the Compose file of a lock.
use ovid.Prelude.{
  ℕ, Option, none, some, List, [], ◌∷◌, ◌++◌, Text, lit, show, join, text_eq, if◌then◌else◌,
}
use ovid.WorldLock.{WorldLock, WorldCell, WorkloadSpec}

-- The UTF-8 bytes of the dash.
abbrev em_dash : Text
em_dash = 226 ∷ 128 ∷ 148 ∷ []

environment_lines : List (Text × Text) → Text
environment_lines [] = []
environment_lines ((key, value) ∷ rest) =
    lit "      " ++ (key ++ (lit ": \"" ++ (value ++ (lit "\"\n" ++ environment_lines rest))))

-- `if !cell.environment.is_empty()`
environment_section : List (Text × Text) → Text
unfolding environment_lines
environment_section [] = []
environment_section (e ∷ rest) = lit "    environment:\n" ++ environment_lines (e ∷ rest)

image_line : Option Text → Text
image_line none = []
image_line (some image) = lit "    image: \"" ++ (image ++ lit "\"\n")

ports_section : Option ℕ → Text
ports_section none = []
ports_section (some port) =
    lit "    ports:\n      - \"" ++ (show port ++ (lit ":" ++ (show port ++ lit "\"\n")))

service_lines : WorldCell → Text
unfolding environment_section image_line ports_section
service_lines cell =
    lit "  "
    ++ (cell.id
        ++ (lit ":\n"
            ++ (image_line cell.image
                ++ (environment_section cell.environment ++ ports_section cell.port))))

target_lines : WorkloadSpec → Text
target_lines w =
    lit "  # target workload: "
    ++ (w.cell ++ (lit "\n  # command: " ++ (join (lit " ") w.command ++ lit "\n")))

other_lines : WorldCell → Text
other_lines cell =
    lit "  # "
    ++ (cell.cell_kind
        ++ (lit " cell " ++ (cell.id ++ (lit " " ++ (em_dash ++ lit " not locally startable\n")))))

-- The arms of the loop's match.
pub cell_lines : WorkloadSpec → WorldCell → Text
unfolding service_lines target_lines other_lines
cell_lines w cell =
    if text_eq.beq cell.cell_kind (lit "service")
    then service_lines cell
    else if text_eq.beq cell.cell_kind (lit "target")
    then target_lines w
    else other_lines cell

pub all_lines : WorkloadSpec → List WorldCell → Text
unfolding cell_lines
all_lines w [] = []
all_lines w (cell ∷ cells) = cell_lines w cell ++ all_lines w cells

unfoldable pub to_compose_yaml : WorldLock → Text
unfolding all_lines
to_compose_yaml lock =
    lit "# Generated by Ovid "
    ++ (em_dash
        ++ (lit " local replay environment (spec FR-093).\n# Startup order: "
            ++ (join (lit " -> ") lock.startup_order
                ++ (lit "\nservices:\n" ++ all_lines lock.workload lock.cells))))
