-- ===== src/PromptContext/Paths.antt =====
-- prompt_context.py: where a path of a host snapshot leads.
use hermes_claude_agent_sdk.Common.{
  ℕ, zero, suc, ◌≤◌, Char, code, String, ◌≡◌, refl, ◌∙◌, ◌⊎◌, inl, inr, Bool, false, ◌||◌, List, [],
  ◌∷◌, ◌++◌, arith, ◌==◌, nat_eq, any, if◌then◌else◌, if-elim, append-nil, append_assoc, subst, sym,
}
use hermes_claude_agent_sdk.Python.{Value, null, str, list, tuple, dict, broken}
use hermes_claude_agent_sdk.Python.Text
use hermes_claude_agent_sdk.PromptContext.{
  Patterns, clean, safe_text, starts_rooted, is_special, kept_path, safe_relative_path,
}

-- The directory above
parent : List String → List String
parent [] = []
parent (d ∷ []) = []
parent (d ∷ e ∷ dir) = d ∷ parent (e ∷ dir)

-- One step of a walk through directories
step : List String → String → List String
unfolding parent
step dir component =
    if (component == "") || (component == ".")
    then dir
    else if component == ".."
    then parent dir
    else dir ++ component ∷ []

-- Where the walk through the components of a path ends
unfoldable pub walk : List String → List String → List String
unfolding step
walk dir [] = dir
walk dir (component ∷ components) = walk (step dir component) components

or-false : (a b : Bool) → (a || b) ≡ false → (a ≡ false) × (b ≡ false)
or-false a b h = (ground arith, ground arith)

step-ordinary :
    (dir : List String) (component : String)
    → is_special component ≡ false
    → step dir component ≡ dir ++ component ∷ []
unfolding step
step-ordinary dir component h =
    let (ab, c) = or-false ((component == "") || (component == ".")) (component == "..") h in
    let (a, b) = or-false (component == "") (component == ".") ab in rw (a, b, c) refl

walk-ordinary :
    (dir components : List String)
    → any is_special components ≡ false
    → walk dir components ≡ dir ++ components
unfolding walk any
walk-ordinary dir [] h = sym (append-nil dir)
walk-ordinary dir (component ∷ components) h =
    let (now, later) = or-false (is_special component) (any is_special components) h in
    walk-ordinary (step dir component) components later
    ∙ subst (λ x. x ++ components ≡ dir ++ component ∷ components)
        (sym (step-ordinary dir component now)) (append_assoc dir (component ∷ []) components)

length-take : (n : ℕ) (s : String) → Text.length (Text.take n s) ≤ n
length-take zero s = omega arith
length-take (suc n) String.[] = omega arith
length-take (suc n) (String.◌∷◌ c s) = let h = length-take n s in omega arith

safe_text-length :
    (u : Patterns) (v : Value) (limit : ℕ) → Text.length (safe_text u v limit) ≤ limit
unfolding safe_text clean
safe_text-length u null limit = omega arith
safe_text-length u (dict fs) limit = omega arith
safe_text-length u broken limit = omega arith
safe_text-length u (list xs) limit = omega arith
safe_text-length u (tuple xs) limit = omega arith
safe_text-length u (str s) limit = length-take limit _
safe_text-length u _ limit = length-take limit _

length-replace :
    (old : ℕ) (new : Char) (s : String) → Text.length (Text.replace old new s) ≡ Text.length s
unfolding Text.replace
length-replace old new String.[] = refl
length-replace old new (String.◌∷◌ c s) = let h = length-replace old new s in omega arith

slash_only : (c : Char) → nat_eq (code (if nat_eq (code c) b'\\' then "/" else c)) b'\\' ≡ false
slash_only c =
    if-elim (λ (d : Char). nat_eq (code d) b'\\' ≡ false) (nat_eq (code c) b'\\') (λ _. refl)
      (λ e. e)

replace-plain :
    (s : String) → Text.any_char (λ c. nat_eq c b'\\') (Text.replace b'\\' "/" s) ≡ false
unfolding Text.replace Text.any_char
replace-plain String.[] = refl
replace-plain (String.◌∷◌ c s) = rw (slash_only c, replace-plain s) refl

-- A path of bounded length, without a backslash, that leads from any directory down through its own
-- components, none of which looks like the name of a secret.
pub record IsRelative (u : Patterns) (path : String) : Type 0 where
  pub short : Text.length path ≤ 240
  pub plain : Text.any_char (λ c. nat_eq c b'\\') path ≡ false
  pub unrooted : starts_rooted path ≡ false
  pub below : (dir : List String) → walk dir (Text.split b'/' path) ≡ dir ++ Text.split b'/' path
  pub calm : any u.is_sensitive (Text.split b'/' path) ≡ false

kept_path-IsRelative :
    (u : Patterns) (path : String)
    → Text.length path ≤ 240
    → Text.any_char (λ c. nat_eq c b'\\') path ≡ false
    → (kept_path u path ≡ "") ⊎ IsRelative u (kept_path u path)
unfolding kept_path
kept_path-IsRelative u path s p =
    if-elim (λ x. (x ≡ "") ⊎ IsRelative u x) (starts_rooted path) (λ _. inl refl)
      (λ r.
        if-elim (λ x. (x ≡ "") ⊎ IsRelative u x) (any is_special (Text.split b'/' path))
          (λ _. inl refl)
          (λ o.
            if-elim (λ x. (x ≡ "") ⊎ IsRelative u x) (any u.is_sensitive (Text.split b'/' path))
              (λ _. inl refl)
              (λ c. inr (record {
                short = s;
                plain = p;
                unrooted = r;
                below = λ dir. walk-ordinary dir (Text.split b'/' path) o;
                calm = c;
              }))))

-- The safe path of any value is empty, or it has at most 240 characters, no backslash and no root,
-- and leads from any directory down through its own components, none of which is sensitive.
pub safe_relative_path-IsRelative :
    (u : Patterns) (value : Value)
    → (safe_relative_path u value ≡ "") ⊎ IsRelative u (safe_relative_path u value)
unfolding safe_relative_path
safe_relative_path-IsRelative u value =
    let text = safe_text u value 240 in
    kept_path-IsRelative u (Text.replace b'\\' "/" text)
      (subst (λ n. n ≤ 240) (sym (length-replace b'\\' "/" text)) (safe_text-length u value 240))
      (replace-plain text)
