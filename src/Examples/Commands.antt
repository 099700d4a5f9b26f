-- ===== src/Examples/Commands.antt =====
-- crates/ovid-planner/src/miners.rs at concrete inputs.
use ovid.Prelude.{◌≡◌, refl, none, some, [], ◌∷◌, lit, contains, nat_eq}
use ovid.Planner.Miners.{
  trim_start, trim_end, trim_prompts, has_substitution, split_words, split_trimmed, shell_split,
}

splits_quotes :
    shell_split (lit "cargo test --package \"my crate\"")
    ≡ some (lit "cargo" ∷ lit "test" ∷ lit "--package" ∷ lit "my crate" ∷ [])
unfolding shell_split split_trimmed split_words trim_start trim_end trim_prompts has_substitution
    lit contains
splits_quotes = refl

keeps_complex_lines :
    shell_split (lit "make && make test")
    ≡ some (lit "sh" ∷ lit "-c" ∷ lit "make && make test" ∷ [])
unfolding shell_split split_trimmed split_words trim_start trim_end trim_prompts has_substitution
    lit contains
keeps_complex_lines = refl

drops_comments : shell_split (lit "# a comment") ≡ none
unfolding shell_split split_trimmed trim_start trim_end trim_prompts lit contains
drops_comments = refl

drops_prompts : shell_split (lit "$ npm test") ≡ some (lit "npm" ∷ lit "test" ∷ [])
unfolding shell_split split_trimmed split_words trim_start trim_end trim_prompts has_substitution
    lit contains
drops_prompts = refl
