-- ===== src/Boot.antt =====
-- platforms/atsam4s/src/vectors.c and os/arch/armv7/syscalls.c: the start of the main chip up to its main, the table of
-- its interrupts, and the growth of its heap. The addresses that the linker gives are parameters. Memory is the word at
-- each address; a loop over words runs on fuel.
pub mod Reset
pub mod Heap
mod Runs
use flipper.Prelude.{
  ℕ, zero, suc, ◌+◌, ◌%◌, ◌^◌, List, [], ◌∷◌, Option, none, some, Bool, true, false, not,
  if◌then◌else◌, ltb, ◌==◌,
}
use flipper.Prelude.Outcome.{Outcome, done, spent, pure, ◌>>=◌, ◌>>◌}

abbrev pub Memory : Type 0
Memory = ℕ → ℕ

abbrev pub store : (at value : ℕ) → Memory → Memory
store at value mem a = if a == at then value else mem a

-- the symbols _etext, _srelocate, _erelocate, _szero and _ezero
pub record Linked : Type 0 where
  pub etext : ℕ
  pub srelocate : ℕ
  pub erelocate : ℕ
  pub szero : ℕ
  pub ezero : ℕ

abbrev pub Cmd : Type 0
Cmd = Memory → Outcome Memory (Unit {0})

-- `for (; pDest < &_erelocate;) { *pDest++ = *pSrc++; }`
unfoldable pub copy_loop : (fuel : ℕ) → (src dest end : ℕ) → Cmd
copy_loop zero src dest end mem = if ltb dest end then spent else done tt mem
copy_loop (suc fuel) src dest end mem =
    let rest = copy_loop fuel (src + 4) (dest + 4) end (store dest (mem src) mem) in
    if ltb dest end then rest else done tt mem

-- `for (pDest = &_szero; pDest < &_ezero;) { *pDest++ = 0; }`
unfoldable pub zero_loop : (fuel : ℕ) → (dest end : ℕ) → Cmd
zero_loop zero dest end mem = if ltb dest end then spent else done tt mem
zero_loop (suc fuel) dest end mem =
    let rest = zero_loop fuel (dest + 4) end (store dest 0 mem) in
    if ltb dest end then rest else done tt mem

-- reset_exception up to its call of main, which is not to return
unfoldable pub reset_exception : (fuel : ℕ) → Linked → Cmd
unfolding copy_loop zero_loop
reset_exception fuel l = do
  if not (l.etext == l.srelocate) then copy_loop fuel l.etext l.srelocate l.erelocate else pure tt
  zero_loop fuel l.szero l.ezero

-- `heap` of _sbrk: 0 is NULL. `bss_end` is the address of _end.
abbrev pub Break : Type 0
Break = ℕ

abbrev pub heap_of : (bss_end : ℕ) → Break → ℕ
heap_of bss_end heap = if heap == 0 then bss_end else heap

-- _sbrk: the address where the heap ended, and where it ends then. An increment that is negative is its number
-- modulo 2 ^ 32.
unfoldable pub sbrk : (bss_end : ℕ) → (increment : ℕ) → Break → ℕ × Break
sbrk bss_end increment heap = (heap_of bss_end heap, (heap_of bss_end heap + increment) % 2 ^ 32)

-- The blocks that calls in order give, each with its size.
unfoldable pub sbrks : (bss_end : ℕ) → List ℕ → Break → List (ℕ × ℕ)
unfolding sbrk
sbrks bss_end [] h = []
sbrks bss_end (n ∷ ns) h = let r = sbrk bss_end n h in (r.0, n) ∷ sbrks bss_end ns r.1

-- the entries of vector_table
pub data Isr : Type 0 where
  estack reset nmi hardfault memmanage busfault usagefault null_isr svc debugmon pendsv systick :
      Isr
  supc rstc rtc rtt wdt pmc eefc uart0 uart1 smc pioa piob pioc usart0 usart1 usart2 mci twi0 twi1 :
      Isr
  spi ssc tc0 tc1 tc2 tc3 tc4 tc5 adc dac pwm crccu acc usbd : Isr

abbrev pub vector_table : List Isr
vector_table =
    estack ∷ reset ∷ nmi ∷ hardfault ∷ memmanage ∷ busfault ∷ usagefault ∷ null_isr ∷ null_isr
    ∷ null_isr ∷ null_isr ∷ svc ∷ debugmon ∷ null_isr ∷ pendsv ∷ systick ∷ supc ∷ rstc ∷ rtc ∷ rtt
    ∷ wdt ∷ pmc ∷ eefc ∷ null_isr ∷ uart0 ∷ uart1 ∷ smc ∷ pioa ∷ piob ∷ pioc ∷ usart0 ∷ usart1
    ∷ usart2 ∷ null_isr ∷ mci ∷ twi0 ∷ twi1 ∷ spi ∷ ssc ∷ tc0 ∷ tc1 ∷ tc2 ∷ tc3 ∷ tc4 ∷ tc5 ∷ adc
    ∷ dac ∷ pwm ∷ crccu ∷ acc ∷ usbd ∷ null_isr ∷ []
