-- ===== src/Parser/Always.antt =====
-- A property of what a call of the parser leaves, whether it succeeds or fails.
use ledger_arweave.Status.{ParserError, Step, ok, fail, ◌>>=◌, within, final}

-- The property holds of the state at the return, on either path.
unfoldable pub Always {ℓ} : {S : Type ℓ} → (S → Type 0) → Step S → Type 0
Always P (ok s) = P s
Always P (fail e s) = P s

pub Always-ok {ℓ} : {S : Type ℓ} (P : S → Type 0) (s : S) → P s → Always P (ok s)
unfolding Always
Always-ok P s h = h

pub Always-fail {ℓ} :
    {S : Type ℓ} (P : S → Type 0) (e : ParserError) (s : S) → P s → Always P (fail e s)
unfolding Always
Always-fail P e s h = h

pub Always-final {ℓ} : {S : Type ℓ} (P : S → Type 0) (m : Step S) → Always P m → P (final m)
unfolding Always
Always-final P (ok s) h = h
Always-final P (fail e s) h = h

pub Always->>= {ℓ} :
    {S : Type ℓ} (P : S → Type 0) (m : Step S) (f : S → Step S)
    → Always P m
    → ((s : S) → P s → Always P (f s))
    → Always P (m >>= f)
unfolding Always
Always->>= P (ok s) f h k = k s h
Always->>= P (fail e s) f h k = h

pub Always-within {ℓ κ} :
    {A : Type ℓ} {S : Type κ} (P : S → Type 0) (put : A → S) (m : Step A)
    → ((a : A) → P (put a))
    → Always P (within put m)
unfolding Always
Always-within P put (ok a) h = h a
Always-within P put (fail e a) h = h a

-- `within`, with a property of what the call leaves.
pub Always-into {ℓ κ} :
    {A : Type ℓ} {S : Type κ} (Q : A → Type 0) (P : S → Type 0) (put : A → S) (m : Step A)
    → Always Q m
    → ((a : A) → Q a → P (put a))
    → Always P (within put m)
unfolding Always
Always-into Q P put (ok a) h k = k a h
Always-into Q P put (fail e a) h k = k a h
