-- ===== src/Lib.antt =====
-- Verification of the TypeScript SDKs of CrownFi's swap contracts on Sei, and of the web
-- application's own logic.
--
-- The program. packages/npm/token-wrapper-sdk names the token factory denoms under which two
-- wrapper contracts hold CW20 and ERC20 tokens, and builds the instructions that wrap and unwrap
-- them. packages/npm/sei-swaps-sdk keeps a market: `SwapMarketPair` is one pool with its cached
-- deposits, shares and fees, from which it quotes and for which it builds instructions;
-- `SwapMarket` holds the pairs of a factory contract, searches routes over them, and quotes,
-- simulates and builds swaps over a route. packages/npm/sei-swaps-webapp is the web application: a
-- service over one market, on which its components stand: the list of pools, the swap form, and the
-- two forms of a pool's dialog. scripts holds a client for scripts and the deployment of the
-- contracts.
--
-- The files. The SDKs' sources are under packages/npm/token-wrapper-sdk/src (wrapper) and
-- packages/npm/sei-swaps-sdk/src (swaps).
-- - Prelude: the library's names, and list, integer and division lemmas over the native numbers.
-- - Text: JavaScript strings as lists of code units.
-- - Platform: errors (the two error.ts) as values of `Result`, objects and maps as association
--   lists, messages and instructions (base/types.ts, types.ts), and the contracts' answers as
--   `Chain`.
-- - Wrapper: `Denoms` is wrapper common.ts, `Cw20` is cw20.ts, `Erc20` is erc20.ts and `Multi` is
--   multi_wrapper.ts; a method has its name in snake case.
-- - Numbers: `getNumberParts` and `bigIntMulNumber` of swaps swap_market.ts.
-- - Pair: the class SwapMarketPair of swaps swap_market.ts: its state, `create` and `refresh`
--   here, the quotes in `Quotes`, the instructions in `Instructions`, the volumes in `Volumes`.
-- - Market: the class SwapMarket of swap_market.ts: its state, `refresh` and the lookups here,
--   `#resolveMultiSwapRoute` in `Routing`, the quotes in `Valuation`, swaps and simulations in
--   `Swapping`, `#normalizedTradeVolume` in `Volumes`.
-- - App: the web application, whose sources are under packages/npm/sei-swaps-webapp/src.
--   `Debounce` is lib/debounced-callbacks.ts, `Service` is services/swap-service.ts, `Farm` is
--   app/components/farm/farm.ts, `Tokens` is utils/tokens-from-pairs.ts, `Swap` is
--   app/components/swap/swap.ts with to-token/to-token.ts, and `Swap/From` is
--   from-token/from-token.ts there. `Pool` is withdraw-form/withdraw-form.ts of
--   app/components/farm/pool-dialog with hooks/use-get-balance.ts, `Pool/Deposit` is
--   deposit-form/deposit-form.ts, `Pool/Figures` is pool-dialog.ts. `Currency` is
--   utils/get-currency.ts with app/components/currency-selector and
--   app/components/farm/treasury-chests. `Page` is the page of pools: the listeners of farm.ts with
--   sort-by/sort-by.ts and filters/filters.ts; `Farm/Item` is pool-item/pool-item.ts. `Elements`
--   has token-dropdown, token-icon with hooks/use-get-token-info.ts, navbar and app-container.
-- - Scripts: `Client` is the class ClientEnv of scripts/helpers.ts with the functions that it stands
--   on, `Assets` its classes of assets, `Deploy` is scripts/deploy_contracts.ts, and `Trace` says
--   what a script does to the chain, in order.
-- The other files of a component hold what is proved of it, its Samples and Examples modules
-- concrete values and applications.
--
-- State and errors. A method that changes its object returns the changed object with its result,
-- which keeps the changes made before an error. Contract queries answer from a `Clock`, which
-- gives the chain's state at each query in the order in which they are issued; two queries of one
-- `Promise.all` get consecutive states. Functions of other packages, double arithmetic among them,
-- are the fields of `Env`.
--
-- The host. A component's state is what decides what it shows and does. A form's wait for the
-- service, and an image's for its icon, splits an operation into two, so that others can come
-- between; any other wait ends before anything else happens. Timers run once they are due, in any
-- order. On the page of pools, events come before its first list too, and the pools may change in
-- place under the list that is shown.
-- `Array.prototype.sort` is an insertion sort.
--
-- Fuel. The search for a route recurses on fuel, one more than the number of denoms that can be
-- traded; each call deeper has seen one more of them. The volumes of several pairs are asked for
-- again only if they must end at the same time, which none of the three methods demands: one round
-- of fuel is enough for them.
--
-- Not modelled: the generated contract clients (each method is one call of the network library),
-- what moves values between the page, the network and the SDK (the start of the application, the
-- dialog that confirms a swap, the elements' styles and the hooks for the client and the account),
-- the rounding of percentages to doubles and to two places, the scripts under scripts/tests, most
-- of which import functions that scripts/helpers.ts does not export, the remaining functions of that
-- file, each one call of the platform, and the contracts, which are not TypeScript, but for where
-- a pair's contract pays the coins of a withdrawal (`Pair/Withdrawals`). Of the double
-- arithmetic only the reading of the bits is modelled, in `Numbers`.
pub mod Prelude
pub mod Text
pub mod Platform
pub mod Wrapper
pub mod Numbers
pub mod Pair
pub mod Market
pub mod App
pub mod Scripts
